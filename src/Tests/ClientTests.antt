-- ===== src/Tests/ClientTests.antt =====
-- kettlingar/client.go: the endpoints of a client, and a streaming call of a generator.
use kettlingar_go.Prelude.{
  ℕ, ◌≡◌, refl, arith, true, false, [], ◌∷◌, Bytes, codes, none, some, if◌then◌else◌, ltb,
}
use kettlingar_go.Text.Dashed.{ascii, dashed_name}
use kettlingar_go.Msgpack.Convert.{new_json_converter}
use kettlingar_go.Rpc.Call.{function, generator, channel_closed, read_args}
use kettlingar_go.Rpc.Call.Framed.{received_all}
use kettlingar_go.Client.{
  Decoder, NextValue, at_eof, bad, value, make_client, streamed, returned, client_call, stream_loop,
}
use kettlingar_go.Client.Loop.{stream_loop-stuck}
use kettlingar_go.EndToEnd.{service}
use kettlingar_go.EndToEnd.ClientStream.{client_call-streamed}
use kettlingar_go.EndToEnd.ClientCall.{client_call-returned}
use kettlingar_go.Tests.RpcTests.{desc, printers, values, ks, streams}

endpoints :
    make_client ascii (codes "http://h/s3/") (
      record { field_name = codes "TailLog"; is_func = true }
      ∷ record { field_name = codes "Name"; is_func = false }
      ∷ [])
    ≡ some (codes "http://h/s3/tail-log") ∷ none ∷ []
unfolding make_client dashed_name
endpoints = refl

-- Bytes below 128 are values; another is an error that the decoder does not get past.
abbrev next_number : Bytes → NextValue ℕ
next_number [] = at_eof
next_number (c ∷ rest) = if ltb c 128 then value c rest else bad (c ∷ rest)

abbrev numbers : Decoder
numbers = record { V = ℕ; zero_value = 0; next = next_number }

client_call-streamed_example :
    client_call numbers
      (service values printers new_json_converter
        (codes "ks")
        (λ url. url)
        streams
        (generator (
          received_all values printers new_json_converter
            (codes "ks")
            (1 ∷ 2 ∷ [])
            channel_closed
            []))
        0
        5
        ks)
      (codes "demo")
      (codes "http://h/")
      (codes "tail-log")
      true
      []
    ≡ streamed (some (1 ∷ 2 ∷ []))
unfolding read_args
client_call-streamed_example =
    client_call-streamed values printers new_json_converter (codes "ks") numbers (λ v. v) streams
      (λ url. url) (codes "demo") (codes "http://h/") (codes "tail-log") [] 0 1 (2 ∷ [])
      channel_closed [] 0 5 ks refl refl refl
      ((omega arith, λ rest. refl), ((omega arith, λ rest. refl), tt))

stream_loop-stuck_example : stream_loop numbers 1000 (200 ∷ []) ≡ none
stream_loop-stuck_example = stream_loop-stuck numbers (200 ∷ []) 1000 refl

client_call-returned_example :
    client_call numbers
      (service values printers new_json_converter
        (codes "ks")
        (λ url. url)
        desc
        (function (λ args r. (some (7 ∷ []), r)))
        0
        5
        ks)
      (codes "demo")
      (codes "http://h/")
      (codes "help")
      false
      []
    ≡ returned 7
unfolding read_args
client_call-returned_example =
    client_call-returned values printers new_json_converter (codes "ks") numbers (λ v. v) desc
      (λ url. url) (codes "demo") (codes "http://h/") (codes "help") []
      (λ args r. (some (7 ∷ []), r)) 0 7 [] 0 5 ks refl (λ r. refl) (omega arith, λ rest. refl)
