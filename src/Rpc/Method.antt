-- ===== src/Rpc/Method.antt =====
-- MethodDesc of kettlingar/service.go, an entry of the service's registry, and the
-- types of Go that it is made from.
use kettlingar_go.Prelude.{Bool, Bytes, List, Option}
use kettlingar_go.Dict.{Dict}

-- A field of an arguments struct, with the `msgpack` and `default` texts of its tag.
pub record Field : Type 0 where
  pub field_name : Bytes
  pub type_name : Bytes
  pub is_netip_addr : Bool
  pub msgpack_tag : Bytes
  pub default_tag : Bytes

-- reflect.Type, as far as registration looks into it; the Boolean of `chan` is for `chan<-`.
pub data GoType : Type 0 where
  request_info : GoType
  pointer : GoType → GoType
  chan : Bool → GoType → GoType
  struct : Bytes → List Field → GoType
  basic : Bytes → GoType

-- `return_type` is none for a nil reflect.Type.
pub record MethodDesc : Type 0 where
  pub name : Bytes
  pub help : Bytes
  pub docs : Bytes
  pub args : Dict Bytes
  pub arg_defaults : Dict Bytes
  pub default_mime : Bytes
  pub return_type : Option GoType
  pub returns : Bytes
  pub is_generator : Bool
  pub is_public : Bool
  pub group : Bytes
