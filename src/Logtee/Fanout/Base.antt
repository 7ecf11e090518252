-- ===== src/Logtee/Fanout/Base.antt =====
-- Derived handlers over a base that can be swapped.
use kettlingar_go.Prelude.{◌≡◌, refl, ap, ◌∙◌, List, [], ◌∷◌, ◌++◌, Bytes}
use kettlingar_go.Slog.{Attr, Handlers}
use kettlingar_go.Logtee.Fanout.{
  FanoutHandler, root_handler, BaseOp, op_attrs, op_group, with_attrs, with_group, Hub, set_base,
  base_view, apply_op, apply_ops,
}

-- What a chain of With and WithGroup calls on a logger asks for.
pub data Derivation : Type 0 where
  attrs_added : List Attr → Derivation
  group_opened : Bytes → Derivation

abbrev pub derive : List Derivation → FanoutHandler → FanoutHandler
derive [] h = h
derive (attrs_added attrs ∷ ds) h = derive ds (with_attrs h attrs)
derive (group_opened name ∷ ds) h = derive ds (with_group h name)

module _ (hs : Handlers) where
  open hs use {Handler}

  -- The same chain of calls made directly on a base; With() with nothing and an empty group name
  -- change nothing.
  abbrev pub derived_base : List Derivation → Handler → Handler
  derived_base [] b = b
  derived_base (attrs_added [] ∷ ds) b = derived_base ds b
  derived_base (attrs_added (a ∷ attrs) ∷ ds) b = derived_base ds (hs.with_attrs b (a ∷ attrs))
  derived_base (group_opened [] ∷ ds) b = derived_base ds b
  derived_base (group_opened (c ∷ name) ∷ ds) b = derived_base ds (hs.with_group b (c ∷ name))

  apply_ops-append :
      (xs ys : List BaseOp) (b : Handler)
      → apply_ops hs (xs ++ ys) b ≡ apply_ops hs ys (apply_ops hs xs b)
  unfolding apply_ops
  apply_ops-append [] ys b = refl
  apply_ops-append (op ∷ xs) ys b = apply_ops-append xs ys (apply_op hs op b)

  view_derive :
      (ds : List Derivation) (h : FanoutHandler) (hub : Hub hs)
      → base_view hs (derive ds h) hub ≡ derived_base ds (base_view hs h hub)
  unfolding base_view with_attrs with_group apply_op
  view_derive [] h hub = refl
  view_derive (attrs_added [] ∷ ds) h hub = view_derive ds h hub
  view_derive (attrs_added (a ∷ attrs) ∷ ds) h hub =
      view_derive ds _ hub
      ∙ ap (derived_base ds) (apply_ops-append h.base_ops (op_attrs (a ∷ attrs) ∷ []) hub.base)
  view_derive (group_opened [] ∷ ds) h hub = view_derive ds h hub
  view_derive (group_opened (c ∷ name) ∷ ds) h hub =
      view_derive ds _ hub
      ∙ ap (derived_base ds) (apply_ops-append h.base_ops (op_group (c ∷ name) ∷ []) hub.base)

  -- A logger derived from the root writes to the base that is current when it writes, with its
  -- attributes and groups applied in the order they were added: also after the base was swapped.
  pub base_view-set_base :
      (ds : List Derivation) (hub : Hub hs) (b : Handler)
      → base_view hs (derive ds root_handler) (set_base hs b hub) ≡ derived_base ds b
  unfolding set_base apply_ops base_view
  base_view-set_base ds hub b = view_derive ds root_handler (set_base hs b hub)
