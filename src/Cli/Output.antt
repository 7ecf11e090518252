-- ===== src/Cli/Output.antt =====
-- printOutput of kettlingar/default_main.go and ProgressUpdate of kettlingar/service.go: what the
-- command line shows of one answer. `Shown` stands for reflection over the return type of a method.
use kettlingar_go.Prelude.{
  ℕ, Bool, ◌||◌, List, [], ◌∷◌, ◌++◌, ◌==◌, if◌then◌else◌, Bytes, bytes_eq, codes, Option, none,
  some,
}
use kettlingar_go.Text.Search.{contains}
use kettlingar_go.Rpc.Method.{MethodDesc, GoType}

-- A write on one of the two streams.
pub data Out : Type 0 where
  stdout stderr : Bytes → Out

pub record ProgressUpdate : Type 0 where
  pub progress : Bytes
  pub is_error : Bool
  pub is_both : Bool

-- ProgressUpdate.String
unfoldable pub progress_text : ProgressUpdate → Bytes
progress_text p = if p.is_error then codes "error: " ++ p.progress else p.progress

-- `decode` is Unmarshal of MessagePack (for true) or JSON into a new value of the type, `progress`
-- is there for a ProgressReporter, `render` gives bytes for a DataRenderer that knows the format,
-- `text` is %v; `any_text` is %v of what is unmarshalled into an interface.
pub record Shown : Type 1 where
  pub V : Type 0
  pub decode : GoType → Bool → Bytes → V
  pub progress : V → Option ProgressUpdate
  pub render : V → Bytes → Option Bytes
  pub text : V → Bytes
  pub any_text : Bool → Bytes → Bytes

abbrev pub keep_end : ℕ → Bytes → Bytes
keep_end c [] = if c == b'\r' || c == b'\n' then [] else c ∷ []
keep_end c (d ∷ ds) = c ∷ d ∷ ds

-- strings.TrimRight(s, "\r\n")
unfoldable pub trim_line : Bytes → Bytes
trim_line [] = []
trim_line (c ∷ s) = keep_end c (trim_line s)

abbrev pub line_out : Bytes → List Out
line_out text = stdout (trim_line text ++ b'\n' ∷ []) ∷ []

module _ (S : Shown) (out_format : Bytes) where
  abbrev render_or_text : S.V → Option Bytes → List Out
  render_or_text v none = line_out (S.text v)
  render_or_text v (some rendered) = stdout rendered ∷ []

  -- Behind the progress report.
  abbrev print_value : S.V → List Out
  print_value v =
      if bytes_eq out_format (codes "text")
      then line_out (S.text v)
      else render_or_text v (S.render v out_format)

  -- A report with a text goes to stderr, and the value after it only if it is both.
  abbrev print_progress : S.V → Option ProgressUpdate → List Out
  print_progress v none = print_value v
  print_progress v (some p) =
      if bytes_eq p.progress []
      then print_value v
      else stderr (progress_text p ++ b'\n' ∷ []) ∷ (if p.is_both then print_value v else [])

  abbrev print_decoded : Option GoType → Bool → Bytes → List Out
  print_decoded none packed text = stdout (S.any_text packed text ++ b'\n' ∷ []) ∷ []
  print_decoded (some rt) packed text =
      let v = S.decode rt packed text in print_progress v (S.progress v)

  unfoldable pub print_output : MethodDesc → Bytes → Bytes → List Out
  unfolding trim_line progress_text
  print_output m text content_type =
      if contains content_type out_format
      then if bytes_eq out_format (codes "msgpack") then stdout text ∷ [] else line_out text
      else print_decoded m.return_type (contains content_type (codes "msgpack")) text
