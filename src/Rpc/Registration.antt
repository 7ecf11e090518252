-- ===== src/Rpc/Registration.antt =====
-- RegisterService of kettlingar/service.go and `ping` of kettlingar/default_methods.go. The Go
-- methods of a service are the data that reflection gives of them.
pub mod Routes
use kettlingar_go.Prelude.{
  ℕ, ◌+◌, ◌-◌, Bool, true, false, ◌&&◌, ◌||◌, not, List, [], ◌∷◌, ◌++◌, length, leb, ltb, ◌==◌,
  if◌then◌else◌, Bytes, bytes_eq, codes, Option, none, some, map,
}
use kettlingar_go.Dict.{Dict, insert, lookup_or}
use kettlingar_go.Text.Search.{cut_prefix}
use kettlingar_go.Text.Decimal.{decimal}
use kettlingar_go.Text.Dashed.{Unicode, dashed_name}
use kettlingar_go.Rpc.Mux.{
  Verdict, skipped, described, refused, panics, Service, Registered, registered, and_then,
  register_method, regroup,
}
use kettlingar_go.Rpc.Method.{MethodDesc, Field, GoType, request_info, pointer, chan, struct, basic}

abbrev pub type_name : GoType → Bytes
type_name request_info = codes "RequestInfo"
type_name (struct name fields) = name
type_name (basic name) = name
type_name _ = []

unfoldable pub get_indirect_type : GoType → GoType
get_indirect_type (pointer t) = get_indirect_type t
get_indirect_type t = t

-- reflect.Method: its name, its arguments without the receiver, and its results.
pub record GoMethod : Type 0 where
  pub method_name : Bytes
  pub ins : List GoType
  pub outs : List GoType

abbrev is_request_info : GoType → Bool
is_request_info (pointer request_info) = true
is_request_info _ = false

abbrev pub no_desc : MethodDesc
no_desc = record {
  name = [];
  help = [];
  docs = [];
  args = [];
  arg_defaults = [];
  default_mime = [];
  return_type = none;
  returns = [];
  is_generator = false;
  is_public = false;
  group = [];
}

unfoldable pub add_fields : List Field → MethodDesc → MethodDesc
add_fields [] desc = desc
add_fields (f ∷ fields) desc =
    let name : Bytes = elim f.msgpack_tag [ [] ↦ f.field_name | c ∷ cs ↦ f.msgpack_tag ] in
    let with_arg = record desc {
      args = insert name (if f.is_netip_addr then codes "netip.Addr" else f.type_name) desc.args;
    } in
    add_fields fields (elim f.default_tag [
      | [] ↦ with_arg
      | c ∷ cs ↦ record with_arg { arg_defaults = insert name f.default_tag with_arg.arg_defaults }
    ])

module _ (U : Unicode) (renders : GoType → Option Bytes) where
  -- `renders` is the MIME type that a DataRenderer gives for "", none for any other type.
  abbrev with_mime : GoType → MethodDesc → Verdict
  with_mime t desc = elim (renders t) [
    | none ↦ described desc
    | some mt ↦ described (record desc { default_mime = mt })
  ]

  -- reflect.New panics at a nil type: that of a method that returns nothing, unless its entry in
  -- the docs had one.
  unfoldable pub with_return : Option GoType → MethodDesc → Verdict
  unfolding get_indirect_type
  with_return (some t) desc =
      let t' = get_indirect_type t in
      with_mime t' (record desc { return_type = some t'; returns = type_name t' })
  with_return none desc = elim desc.return_type [ none ↦ panics | some t ↦ with_mime t desc ]

  abbrev first_out : List GoType → Option GoType
  first_out [] = none
  first_out (t ∷ ts) = some t

  -- The arguments behind *RequestInfo.
  unfoldable pub with_args : GoMethod → List GoType → Option GoType → MethodDesc → Verdict
  unfolding with_return add_fields
  with_args m [] ret desc = with_return ret desc
  with_args m (struct name fields ∷ []) ret desc = with_return ret (add_fields fields desc)
  with_args m (t ∷ []) ret desc =
      refused (m.method_name ++ codes "() final argument should be a struct")
  with_args m (t ∷ u ∷ more) ret desc = refused (
      m.method_name
      ++ (codes "() takes too many arguments: "
          ++ (decimal (length m.ins)
              ++ (codes " > " ++ decimal (length m.ins + 1 - length (t ∷ u ∷ more))))))

  unfoldable pub with_info : GoMethod → List GoType → Option GoType → MethodDesc → Verdict
  unfolding with_args
  with_info m [] ret desc =
      refused (m.method_name ++ codes "() should take *RequestInfo as first non-chan argument")
  with_info m (info ∷ more) ret desc =
      if is_request_info info
      then with_args m more ret desc
      else refused (m.method_name ++ codes "() should take *RequestInfo as first non-chan argument")

  -- A channel in front, where there are two arguments at least. Where the docs say that a method
  -- without one is a generator, its return type is that behind its *RequestInfo.
  unfoldable pub with_ins : GoMethod → List GoType → MethodDesc → Verdict
  unfolding with_info
  with_ins m (chan true elem ∷ t ∷ more) desc =
      with_info m (t ∷ more) (some elem) (record desc { is_generator = true })
  with_ins m (chan false elem ∷ t ∷ more) desc =
      refused (m.method_name ++ codes "() takes wrong kind of chan as first argument")
  with_ins m ins desc =
      with_info m ins (if desc.is_generator then some request_info else first_out m.outs) desc

  unfoldable pub describe_as : Dict MethodDesc → GoMethod → Bool → Bytes → Verdict
  unfolding with_ins
  describe_as docs m is_public rest =
      let name = dashed_name U rest in
      if ltb (length m.ins) 1 || ltb 3 (length m.ins)
      then refused (
          m.method_name
          ++ (codes "() has wrong number of arguments (" ++ (decimal (length m.ins) ++ codes ")")))
      else with_ins m m.ins (record (lookup_or name no_desc docs) {
        name = name;
        args = [];
        arg_defaults = [];
        is_public = is_public;
        returns = codes "void";
        default_mime = codes "application/json";
      })

  unfoldable pub describe : Dict MethodDesc → GoMethod → Verdict
  unfolding describe_as
  describe docs m = elim (cut_prefix m.method_name (codes "PublicApi")) [
    | some rest ↦ describe_as docs m true rest
    | none ↦ elim (cut_prefix m.method_name (codes "Api")) [
      | some rest ↦ describe_as docs m false rest
      | none ↦ skipped
    ]
  ]

  unfoldable pub register_methods : Dict MethodDesc → List GoMethod → Service → Registered
  unfolding register_method describe
  register_methods docs [] ks = registered ks
  register_methods docs (m ∷ ms) ks =
      and_then (register_method (describe docs m) ks) (register_methods docs ms)

  unfoldable pub register_service : Dict MethodDesc → List GoMethod → Service → Registered
  unfolding register_methods regroup
  register_service docs ms ks =
      and_then (register_methods docs ms ks)
        λ ks'. registered (record ks' { registry = regroup docs ks'.registry })
