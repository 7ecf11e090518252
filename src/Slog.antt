-- ===== src/Slog.antt =====
-- What the logging packages use of log/slog: levels, attributes, records and the Handler interface.
use kettlingar_go.Prelude.{Bool, Bytes, List, Option, ℤ, pos, negsuc}

abbrev pub Level : Type 0
Level = ℤ

abbrev pub level_debug : Level
level_debug = negsuc 3

abbrev pub level_info : Level
level_info = pos 0

abbrev pub level_warn : Level
level_warn = pos 4

abbrev pub level_error : Level
level_error = pos 8

-- A value that an attribute holds: a level, a group of attributes (slog drops one without any), or
-- anything else by its text.
mutual
  pub data Value : Type 0 where
    level_value : Level → Value
    text_value : Bytes → Value
    group_value : Members → Value

  pub data Members : Type 0 where
    only : Bytes → Value → Members
    also : Bytes → Value → Members → Members

pub record Attr : Type 0 where
  pub key : Bytes
  pub value : Value

pub record Record : Type 0 where
  pub level : Level
  pub message : Bytes
  pub attrs : List Attr

-- slog.Handler. A handler is a value; what it writes to is the world.
pub record Handlers : Type 1 where
  pub Handler : Type 0
  pub World : Type 0
  pub enabled : Handler → Level → Bool
  pub handle : Handler → Record → World → Option Bytes × World
  pub with_attrs : Handler → List Attr → Handler
  pub with_group : Handler → Bytes → Handler
