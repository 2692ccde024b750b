-- ===== src/Tests/Network.antt =====
-- The theorems about the clients and servers of the network at concrete packets.
use recserve.Prelude.{
  ℕ, ◌≡◌, refl, true, false, none, some, List, [], ◌∷◌, ◌++◌, take, drop, arith, same, ◌⊎◌,
}
use recserve.Prelude.Int.{pos}
use recserve.Exec.{ok}
use recserve.Wire.{Arrival, bytes, pack, unpack, exact, exact_from, number_at}
use recserve.Wire.Receiving.{stream}
use recserve.App.Retrieval.{
  FloatCodec, Session, connected, refused, query_once, connect, receive_reply, read_reply,
  read_answer, items_from, same_bytes, distinct_rows,
}
use recserve.App.Retrieval.RoundTrip.{reply_bytes, receive_reply-reply_bytes}
use recserve.App.Retrieval.Accepted.{IsAccepted, query_once-IsAccepted}
use recserve.Pilot.Http.{Request, Surroundings, decoded, decode_body, do_post}
use recserve.Pilot.Payload.{Payload}
use recserve.Pilot.Http.Atomic.{IsAcknowledged, IsRefused, do_post-events}
use recserve.Tests.{numbers, films, quiet, served, seen_it}

abbrev raw_codec : FloatCodec ℕ
raw_codec = record { to_bits = λ n. n; of_bits = λ n. n; is_finite = λ n. true }

-- the digest of a model
abbrev digest : List ℕ
digest =
    7 ∷ 0 ∷ 0 ∷ 0 ∷ 0 ∷ 0 ∷ 0 ∷ 0 ∷ 0 ∷ 0 ∷ 0 ∷ 0 ∷ 0 ∷ 0 ∷ 0 ∷ 0 ∷ 0 ∷ 0 ∷ 0 ∷ 0 ∷ 0 ∷ 0 ∷ 0 ∷ 0
    ∷ 0 ∷ 0 ∷ 0 ∷ 0 ∷ 0 ∷ 0 ∷ 0 ∷ 9 ∷ []

abbrev scored_rows : List (ℕ × ℕ)
scored_rows = (3, 7) ∷ (1, 5) ∷ []

-- the reply in two packets, the first of which cuts the header
abbrev packets : List Arrival
packets =
    bytes (take 6 (reply_bytes raw_codec digest 5 scored_rows))
    ∷ bytes (drop 6 (reply_bytes raw_codec digest 5 scored_rows))
    ∷ []

whole_reply : stream packets ≡ reply_bytes raw_codec digest 5 scored_rows ++ []
unfolding pack
whole_reply = refl

different : distinct_rows scored_rows ≡ true
unfolding distinct_rows
different = refl

receive_reply-reply_bytes_example : receive_reply raw_codec digest 5 4 packets ≡ ok scored_rows
receive_reply-reply_bytes_example =
    receive_reply-reply_bytes raw_codec digest 5 4 scored_rows packets [] (omega arith) refl
      (omega arith) (omega arith) different
      ((omega arith, (omega arith, (refl, refl))), ((omega arith, (omega arith, (refl, refl))), tt))
      whole_reply

-- the first address refuses
abbrev session : Session
session = record {
  late_before = false;
  attempts = refused ∷ connected packets ∷ [];
  late_after = false;
  send_fault = none;
}

queried : query_once raw_codec digest session 5 4 ≡ ok scored_rows
unfolding query_once connect receive_reply read_reply read_answer items_from same_bytes
    distinct_rows exact exact_from number_at unpack pack
queried = refl

query_once-IsAccepted_example : IsAccepted raw_codec digest 4 scored_rows
query_once-IsAccepted_example =
    query_once-IsAccepted raw_codec digest session 5 4 scored_rows queried

abbrev post : Request
post = record {
  host = some "localhost:9410";
  origin = none;
  path = "/v1/events";
  content_lengths = "3" ∷ [];
  transfer_encoding = none;
  content_type = some "application/json";
  body = some (1 ∷ 2 ∷ 3 ∷ []);
}

abbrev around : Surroundings ℕ
around = record {
  int_of = λ s. some (pos 3);
  loads = λ l. some seen_it;
  world = quiet;
  stamp = 100;
  is_connected = true;
}

elsewhere : same "/v1/events" "/v1/recommend" ≡ false
unfolding same
elsewhere = refl

do_post-events_example :
    ((payload : Payload) × (decode_body around.int_of around.loads post ≡ decoded payload)
      × IsAcknowledged numbers films
          ("localhost:9410" ∷ [])
          around
          payload
          served
          (do_post numbers films ("localhost:9410" ∷ []) around post served))
    ⊎ IsRefused numbers films
        ("localhost:9410" ∷ [])
        served
        (do_post numbers films ("localhost:9410" ∷ []) around post served)
do_post-events_example =
    do_post-events numbers films ("localhost:9410" ∷ []) around post served elsewhere
