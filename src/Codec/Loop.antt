-- ===== src/Codec/Loop.antt =====
-- A reader that calls a decoder until it asks for more or fails, as `Framed` of the codec libraries
-- does with what a connection has received.
use rust_mumble_protocol.Base.{
  ap, ◌∙◌, ℕ, zero, suc, ◌<◌, ◌≤◌, ◌≡◌, ◌≢◌, refl, arith, Option, none, some, List, [], ◌∷◌, ◌++◌,
  Bytes, IsBytes, length, Result, ok, err, panic, IoError,
}
use rust_mumble_protocol.Voice.{VoicePacketDst}
use rust_mumble_protocol.Voice.Dst.{IsLawful}
use rust_mumble_protocol.Control.Packets.{Protobuf, MessageName}
use rust_mumble_protocol.Crypt.Ocb.{Aes128}
use rust_mumble_protocol.Codec.{Decoder, CodecName, decoder}
use rust_mumble_protocol.Codec.Reads.{Reads, yields, waits, fails, decoder-Reads}

pub data Ending : Type 0 where
  waiting panicking out_of_fuel : Ending
  failing : IoError → Ending

pub record Run (c : Decoder) : Type 0 where
  pub items : List c.Item
  pub state : c.State
  pub left : Bytes
  pub ending : Ending

module _ (c : Decoder) where
  abbrev pub item_first : c.Item → Run c → Run c
  item_first item r = record r { items = item ∷ r.items }

  -- Each round takes fuel.
  pub read_all : ℕ → c.State → Bytes → Run c
  read_all zero s buf = record { items = []; state = s; left = buf; ending = out_of_fuel }
  read_all (suc fuel) s buf =
      let o = c.decode s buf in
      let rest = read_all fuel o.1 o.2 in
      elim o.0 [
        | ok (some item) ↦ item_first item rest
        | ok none ↦ record { items = []; state = o.1; left = o.2; ending = waiting }
        | err e ↦ record { items = []; state = o.1; left = o.2; ending = failing e }
        | panic ↦ record { items = []; state = o.1; left = o.2; ending = panicking }
      ]

  -- Chunks that arrive one after the other, as long as the decoder waits for more.
  pub receive : c.State → Bytes → List Bytes → Run c
  receive s buf [] = record { items = []; state = s; left = buf; ending = waiting }
  receive s buf (chunk ∷ chunks) =
      let r = read_all (suc (length (buf ++ chunk))) s (buf ++ chunk) in
      let rest = receive r.state r.left chunks in
      elim r.ending [ waiting ↦ record rest { items = r.items ++ rest.items } | _ ↦ r ]

  -- A round, from what `decode` returns.
  abbrev round : ℕ → Result (Option c.Item) IoError × c.State × Bytes → Run c
  round fuel o = elim o.0 [
    | ok (some item) ↦ item_first item (read_all fuel o.1 o.2)
    | ok none ↦ record { items = []; state = o.1; left = o.2; ending = waiting }
    | err e ↦ record { items = []; state = o.1; left = o.2; ending = failing e }
    | panic ↦ record { items = []; state = o.1; left = o.2; ending = panicking }
  ]

  -- A chunk, from its run.
  abbrev after_chunk : List Bytes → Ending → Run c → Run c
  after_chunk chunks ending r = elim ending [
    | waiting ↦ record (receive r.state r.left chunks) {
      items = r.items ++ (receive r.state r.left chunks).items;
    }
    | _ ↦ r
  ]

  pub read_all-yields :
      (fuel : ℕ) (s s' : c.State) (buf rest : Bytes) (item : c.Item)
      → c.decode s buf ≡ (ok (some item), s', rest)
      → read_all (suc fuel) s buf ≡ item_first item (read_all fuel s' rest)
  unfolding read_all
  read_all-yields fuel s s' buf rest item e = ap (round fuel) e

  pub read_all-waits :
      (fuel : ℕ) (s s' : c.State) (buf rest : Bytes)
      → c.decode s buf ≡ (ok none, s', rest)
      → read_all (suc fuel) s buf ≡ record { items = []; state = s'; left = rest; ending = waiting }
  unfolding read_all
  read_all-waits fuel s s' buf rest e = ap (round fuel) e

  pub receive-nil :
      (s : c.State) (buf : Bytes)
      → receive s buf [] ≡ record { items = []; state = s; left = buf; ending = waiting }
  unfolding receive
  receive-nil s buf = refl

  pub receive-cons :
      (s : c.State) (buf chunk : Bytes) (chunks : List Bytes) (r : Run c)
      → read_all (suc (length (buf ++ chunk))) s (buf ++ chunk) ≡ r
      → r.ending ≡ waiting
      → receive s buf (chunk ∷ chunks) ≡ record (receive r.state r.left chunks) {
        items = r.items ++ (receive r.state r.left chunks).items;
      }
  unfolding receive
  receive-cons s buf chunk chunks r e w =
      ap (λ (r : Run c). after_chunk chunks r.ending r) e
      ∙ ap (λ ending. after_chunk chunks ending r) w

  -- It has come to an end that is a decoder's own, and if it waits, then for more bytes than it has.
  pub record Ends (buf : Bytes) (r : Run c) : Type 0 where
    pub finished : r.ending ≢ out_of_fuel
    pub sound : r.ending ≢ panicking
    pub few : length r.items ≤ length buf
    pub settled : r.ending ≡ waiting → c.decode r.state r.left ≡ (ok none, r.state, r.left)

  Ends-item :
      (buf rest : Bytes) (item : c.Item) (r : Run c)
      → length rest < length buf
      → Ends rest r
      → Ends buf (item_first item r)
  Ends-item buf rest item r h ends = record {
    finished = ends.finished;
    sound = ends.sound;
    few = let few = ends.few in omega arith;
    settled = ends.settled;
  }

  module _
      (reads : (s : c.State) (buf : Bytes) → IsBytes buf → Reads c s buf (c.decode s buf)) where
    read_all-step :
        (fuel : ℕ) (s : c.State) (buf : Bytes)
        (o : Result (Option c.Item) IoError × c.State × Bytes)
        → Reads c s buf o
        → c.decode s buf ≡ o
        → length buf < suc fuel
        → ((s : c.State) (buf : Bytes)
            → IsBytes buf
            → length buf < fuel
            → Ends buf (read_all fuel s buf))
        → Ends buf (round fuel o)
    read_all-step fuel s buf o (yields item s' rest less h) e enough ih =
        Ends-item buf rest item (read_all fuel s' rest) less (ih s' rest h (omega arith))
    read_all-step fuel s buf o waits e enough ih = record {
      finished = λ e. cc;
      sound = λ e. cc;
      few = omega arith;
      settled = λ _. e;
    }
    read_all-step fuel s buf o (fails error s' rest) e enough ih = record {
      finished = λ e. cc;
      sound = λ e. cc;
      few = omega arith;
      settled = λ e. absurd (cc e);
    }

    pub read_all-Ends :
        (fuel : ℕ) (s : c.State) (buf : Bytes)
        → IsBytes buf
        → length buf < fuel
        → Ends buf (read_all fuel s buf)
    unfolding read_all
    read_all-Ends zero s buf h enough = absurd (omega arith)
    read_all-Ends (suc fuel) s buf h enough =
        read_all-step fuel s buf (c.decode s buf) (reads s buf h) refl enough (read_all-Ends fuel)

-- If the message parser does not panic, then calls of `decode` on any bytes, each on what the last
-- one left, come to an end after at most one call more than there are bytes, whichever decoder it is:
-- with `Ok(None)`, which the decoder then returns again on what is left, or with an error, never with
-- a panic, and with at most as many items as there were bytes.
pub decoders-Ends :
    (m : Protobuf) (aes : Aes128) (d : VoicePacketDst)
    → ((n : MessageName) (bytes : Bytes) → m.parse_from_bytes n bytes ≢ panic)
    → IsLawful d
    → (k : CodecName) (s : (decoder m aes d k).State) (buf : Bytes) → IsBytes buf
    → Ends (decoder m aes d k) buf (read_all (decoder m aes d k) (suc (length buf)) s buf)
decoders-Ends m aes d total l k s buf h =
    read_all-Ends (decoder m aes d k) (decoder-Reads m total aes d l k) (suc (length buf)) s buf h
      (omega arith)
