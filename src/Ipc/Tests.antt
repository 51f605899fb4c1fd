-- ===== src/Ipc/Tests.antt =====
-- The protocol theorems at concrete inputs, and small tests.
use scg.Base.{ℕ, ◌+◌, ◌≡◌, ◌↔◌, refl, List, [], ◌∷◌, ◌++◌, ok, true, arith, length}
use scg.Base.Bytes.{Bytes}
use scg.Ipc.Frame.{feed, new, Frame, FrameDecoder, encode_header}
use scg.Ipc.Frame.Stream.{receive, ReceivesAll, receive-wire_all}
use scg.Ipc.Token.{CapabilityToken, ct_eq}
use scg.Ipc.Token.Compare.{ct_eq_iff}
use scg.Ipc.Handshake.{
  new as hello_new, consumer, decode, encode, hello_len, hello_magic, ShmOffer, encode_offer,
  decode_offer, shm_offer_len,
}
use scg.Ipc.Handshake.HelloAccept.{decode-encode}
use scg.Ipc.Handshake.OfferRoundTrip.{decode_offer-encode_offer}

-- Two frames, the first with two bytes, the second empty.
abbrev two_frames : List Frame
two_frames = (7, 10 ∷ 20 ∷ []) ∷ (9, []) ∷ []

-- Their 18 bytes, cut inside the first header, inside the payload and inside the second header.
abbrev cut_stream : List Bytes
cut_stream =
    (2 ∷ 0 ∷ 0 ∷ [])
    ∷ (0 ∷ 7 ∷ 0 ∷ 0 ∷ 0 ∷ 10 ∷ [])
    ∷ []
    ∷ (20 ∷ 0 ∷ 0 ∷ 0 ∷ [])
    ∷ (0 ∷ 9 ∷ 0 ∷ 0 ∷ 0 ∷ [])
    ∷ []

receive-wire_all_example : ReceivesAll two_frames (receive (new 16) cut_stream)
unfolding encode_header
receive-wire_all_example =
    receive-wire_all 16 two_frames cut_stream
      (
        record { tid_u32 = omega arith; len_u32 = omega arith; len_max = omega arith },
        (record { tid_u32 = omega arith; len_u32 = omega arith; len_max = omega arith }, tt),
      )
      refl

abbrev greedy : FrameDecoder
greedy = feed (new 16) (17 ∷ 0 ∷ 0 ∷ 0 ∷ 1 ∷ 0 ∷ 0 ∷ 0 ∷ 5 ∷ [])

-- The bytes n, n + 1, … of a token.
abbrev counting : ℕ → Bytes
counting n = n ∷ (n + 1) ∷ (n + 2) ∷ (n + 3) ∷ (n + 4) ∷ (n + 5) ∷ (n + 6) ∷ (n + 7) ∷ []

abbrev token : CapabilityToken
token = record { bytes = counting 1 ++ counting 9 ++ counting 17 ++ counting 25 }

ct_eq_iff_example :
    (ct_eq token (counting 1 ++ counting 9 ++ counting 17 ++ counting 26) ≡ true)
    ↔ (token.bytes ≡ counting 1 ++ counting 9 ++ counting 17 ++ counting 26)
ct_eq_iff_example = ct_eq_iff token (counting 1 ++ counting 9 ++ counting 17 ++ counting 26) refl

decode-encode_example :
    (decode (encode (hello_new consumer token)) ≡ ok (hello_new consumer token))
    × (length (encode (hello_new consumer token)) ≡ hello_len)
decode-encode_example = decode-encode consumer token refl

-- A consumer's hello with the reserved bytes 5 and 6.
abbrev hello_bytes : Bytes
hello_bytes = hello_magic ++ (1 ∷ 2 ∷ 5 ∷ 6 ∷ token.bytes)

decode-hello_bytes :
    decode hello_bytes ≡ ok (record { version = 1; role = consumer; token = token })
unfolding decode
decode-hello_bytes = refl

abbrev offer : ShmOffer
offer = record {
  version = 1;
  notify = 0;
  n_fds = 3;
  ring_kind = 1;
  cap_c2g = 65536;
  cap_g2c = 65536;
  capacity = 64;
  segment_size = 1024;
}

decode_offer-encode_offer_example :
    (decode_offer (encode_offer offer) ≡ ok offer) × (length (encode_offer offer) ≡ shm_offer_len)
decode_offer-encode_offer_example =
    decode_offer-encode_offer offer
      (record {
        cap_c2g_u64 = omega arith;
        cap_g2c_u64 = omega arith;
        capacity_u32 = omega arith;
        segment_size_u32 = omega arith;
      })
      refl

abbrev offer_bytes : Bytes
offer_bytes =
    83 ∷ 67 ∷ 71 ∷ 79 ∷ 1 ∷ 0 ∷ 3 ∷ 1 ∷ 0 ∷ 0 ∷ 1 ∷ 0 ∷ 0 ∷ 0 ∷ 0 ∷ 0 ∷ 0 ∷ 0 ∷ 1 ∷ 0 ∷ 0 ∷ 0 ∷ 0
    ∷ 0 ∷ 64 ∷ 0 ∷ 0 ∷ 0 ∷ 0 ∷ 4 ∷ 0 ∷ 0 ∷ []

offer_bytes_decode : decode_offer offer_bytes ≡ ok offer
unfolding decode_offer
offer_bytes_decode = refl
