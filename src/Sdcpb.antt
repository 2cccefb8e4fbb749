-- ===== src/Sdcpb.antt =====
-- The messages of the sdcpb protocol buffers, with the fields that the program reads and writes. A
-- nil message is the message of zero values, as protobuf's getters read it, except where the
-- program tests for nil: there the message is an `Option`. A nil map is an empty one.
use sdcio_schema_server.Base.{ℕ, Bool, Option, List, Str, Dict, none, some, []}

pub record PathElem : Type 0 where
  pub name : Str
  pub key : Dict Str Str

pub record SdcPath : Type 0 where
  pub origin : Str
  pub target : Str
  pub elem : List PathElem

pub data DataType : Type 0 where
  all config state : DataType

-- `sdcpb.Schema`, which names a schema in a request.
pub record SchemaName : Type 0 where
  pub name : Str
  pub vendor : Str
  pub version : Str

pub record MustStatement : Type 0 where
  pub statement : Str
  pub error : Str

pub record ChoiceInfo : Type 0 where
  pub choice : Str
  pub case_name : Str
  pub alt_case : List Str

mutual
  pub data LeafType : Type 0 where
    leaf_type :
        (kind range length units type_name leafref : Str)
        → (values patterns : List Str) → UnionTypes
        → LeafType

  pub data UnionTypes : Type 0 where
    nil : UnionTypes
    cons : LeafType → UnionTypes → UnionTypes

pub record LeafSchema : Type 0 where
  pub name : Str
  pub namespace : Str
  pub prefix : Str
  pub description : Str
  pub type : LeafType
  pub is_mandatory : Bool
  pub default : Str
  pub units : Str
  pub must_statements : List MustStatement
  pub is_state : Bool
  pub reference : List Str
  pub choice_info : Option ChoiceInfo
  pub if_feature : List Str

pub record LeafListSchema : Type 0 where
  pub name : Str
  pub namespace : Str
  pub prefix : Str
  pub description : Str
  pub type : LeafType
  pub units : Str
  pub must_statements : List MustStatement
  pub is_state : Bool
  pub is_user_ordered : Bool
  pub max_elements : ℕ
  pub min_elements : ℕ
  pub choice_info : Option ChoiceInfo
  pub if_feature : List Str

pub record ContainerSchema : Type 0 where
  pub name : Str
  pub namespace : Str
  pub prefix : Str
  pub description : Str
  pub keys : List LeafSchema
  pub fields : List LeafSchema
  pub leaflists : List LeafListSchema
  pub children : List Str
  pub must_statements : List MustStatement
  pub is_state : Bool
  pub is_presence : Bool
  pub is_user_ordered : Bool
  pub max_elements : ℕ
  pub min_elements : ℕ
  pub choice_info : Option ChoiceInfo
  pub if_feature : List Str

pub data SchemaElem : Type 0 where
  container : ContainerSchema → SchemaElem
  field : LeafSchema → SchemaElem
  leaflist : LeafListSchema → SchemaElem

pub record GetSchemaRequest : Type 0 where
  pub schema : Option SchemaName
  pub path : SdcPath
  pub with_description : Bool

pub record CreateSchemaRequest : Type 0 where
  pub schema : Option SchemaName
  pub file : List Str
  pub directory : List Str
  pub exclude : List Str

pub record SchemaDetails : Type 0 where
  pub schema : SchemaName
  pub file : List Str
  pub directory : List Str
  pub exclude : List Str

pub record ToPathRequest : Type 0 where
  pub schema : Option SchemaName
  pub path_element : List Str

-- A nil path as its getters read it.
abbrev pub path_or_empty : Option SdcPath → SdcPath
path_or_empty none = record { origin = []; target = []; elem = [] }
path_or_empty (some p) = p

pub record ExpandPathRequest : Type 0 where
  pub schema : Option SchemaName
  pub path : Option SdcPath
  pub data_type : DataType
  pub xpath : Bool

pub record ExpandPathResponse : Type 0 where
  pub path : List SdcPath
  pub xpath : List Str

-- `other_method` is a number that the enumeration does not name.
pub data HashMethod : Type 0 where
  unspecified md5 sha256 sha512 other_method : HashMethod

pub record Hash : Type 0 where
  pub method : HashMethod
  pub hash : Str

pub data FileType : Type 0 where
  module_file dependency other_file : FileType

pub record UploadSchemaFile : Type 0 where
  pub file_name : Str
  pub file_type : FileType
  pub contents : Str
  pub hash : Option Hash

-- `empty_request` has a nil `Upload`.
pub data UploadSchemaRequest : Type 0 where
  create_schema : CreateSchemaRequest → UploadSchemaRequest
  schema_file : UploadSchemaFile → UploadSchemaRequest
  finalize : UploadSchemaRequest
  empty_request : UploadSchemaRequest
