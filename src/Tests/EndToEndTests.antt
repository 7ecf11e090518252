-- ===== src/Tests/EndToEndTests.antt =====
-- Calls from the command line to a generator and back, on concrete values.
use kettlingar_go.Prelude.{
  All, ℕ, ◌+◌, ◌≡◌, refl, arith, true, ltb, if◌then◌else◌, [], ◌∷◌, Bytes, codes, Option, none,
  some,
}
use kettlingar_go.Msgpack.Convert.{convert, convert_from, decode_next, dispatch, new_json_converter}
use kettlingar_go.Text.Decimal.{decimal}
use kettlingar_go.Text.Space.{trim_space}
use kettlingar_go.Rpc.Method.{basic, MethodDesc}
use kettlingar_go.Rpc.Call.{forgiving_json, generator, channel_closed, read_args}
use kettlingar_go.Rpc.Call.Framed.{received_all}
use kettlingar_go.Cli.Output.{stdout, stderr, Shown, print_output}
use kettlingar_go.Cli.Values.{params}
use kettlingar_go.Cli.Call.{Raw, raw, send_call}
use kettlingar_go.Cli.Call.Streams.{IsLine}
use kettlingar_go.EndToEnd.{service}
use kettlingar_go.EndToEnd.Lines.{HasLine, send_call-json}
use kettlingar_go.EndToEnd.Packed.{send_call-packed}
use kettlingar_go.Tests.RpcTests.{printers, values, ks, streams}
use kettlingar_go.Tests.CommandTests.{parsers}

-- Values are bytes; those from 10 on report progress.
abbrev shown : Shown
shown = record {
  V = ℕ;
  decode = λ t packed text. elim text [ [] ↦ 0 | c ∷ cs ↦ c ];
  progress = λ v.
      if ltb v 10
      then none
      else some (record { progress = codes "p"; is_error = true; is_both = true });
  render = λ v format. none;
  text = λ v. (v + b'0') ∷ [];
  any_text = λ packed text. text;
}

-- Each byte is a document.
abbrev next_raw : Bytes → Option Raw
next_raw [] = none
next_raw (c ∷ rest) = some (raw (c ∷ []) rest)

abbrev typed : MethodDesc
typed = record streams { return_type = some (basic (codes "int")) }

abbrev line : ℕ → Bytes
line v = (v + b'0') ∷ []

one_line : IsLine (line 1)
unfolding trim_space
one_line = record {
  one = (ground arith, tt);
  no_cr = (ground arith, tt);
  short = omega arith;
  shows = λ e. ground (arith, e);
}

two_line : IsLine (line 2)
unfolding trim_space
two_line = record {
  one = (ground arith, tt);
  no_cr = (ground arith, tt);
  short = omega arith;
  shows = λ e. ground (arith, e);
}

json_of_both : All (HasLine values printers new_json_converter (codes "ks") line) (1 ∷ 2 ∷ [])
unfolding forgiving_json convert convert_from decode_next dispatch decimal
json_of_both = ((refl, one_line), ((refl, two_line), tt))

send_call-json_example :
    send_call shown next_raw
      (codes "json")
      streams
      parsers
      (λ ps. [])
      (service values printers new_json_converter
        (codes "ks")
        (λ url. url)
        streams
        (generator (
          received_all values printers new_json_converter
            (codes "ks")
            (1 ∷ 2 ∷ [])
            channel_closed
            []))
        0
        5
        ks)
      (codes "http://h")
      (params [])
    ≡ some (stdout (codes "1\n") ∷ stdout (codes "2\n") ∷ [])
unfolding read_args
send_call-json_example =
    send_call-json values printers new_json_converter (codes "ks") shown next_raw streams parsers
      (λ ps. []) (λ url. url) (codes "http://h") [] 0 line 1 (2 ∷ []) channel_closed [] 0 5 ks refl
      refl refl json_of_both

send_call-packed_example :
    send_call shown next_raw
      (codes "text")
      typed
      parsers
      (λ ps. [])
      (service values printers new_json_converter
        (codes "ks")
        (λ url. url)
        typed
        (generator (
          received_all values printers new_json_converter
            (codes "ks")
            (1 ∷ 11 ∷ [])
            channel_closed
            []))
        0
        5
        ks)
      (codes "http://h")
      (params [])
    ≡ some (stdout (codes "1\n") ∷ stderr (codes "error: p\n") ∷ stdout (codes ";\n") ∷ [])
unfolding read_args print_output
send_call-packed_example =
    send_call-packed values printers new_json_converter (codes "ks") shown next_raw (codes "text")
      typed parsers (λ ps. []) (λ url. url) (codes "http://h") [] 0 1 (11 ∷ []) channel_closed [] 0
      5 ks refl refl refl refl
      (record {
        at_end = refl;
        at_text = ((omega arith, λ rest. refl), ((omega arith, λ rest. refl), tt));
      })
