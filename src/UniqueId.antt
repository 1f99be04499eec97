-- ===== src/UniqueId.antt =====
-- Message identifiers: src/main/cpp/base/UniqueIdGenerator.cpp. The seconds since the custom epoch, on
-- the steady clock, are an argument of each call; the prefix is the MAC address and process id.
pub mod Rising
use rocketmq_client_cpp.Prelude.{
  ℕ, ◌+◌, ◌/◌, ◌%◌, Bool, true, false, not, List, [], ◌∷◌, ◌++◌, ◌==◌, if◌then◌else◌,
}
use rocketmq_client_cpp.Prelude.Text.{Text}
use rocketmq_client_cpp.Hex.{hex}

pub record Slot : Type 0 where
  pub seconds : ℕ  -- uint32_t
  pub sequence : ℕ  -- uint32_t

pub record UniqueIdGenerator : Type 0 where
  pub prefix : List ℕ  -- 8 bytes
  pub slot : Slot

abbrev pub version : ℕ
version = 1

-- The slot that a call of `next` takes, `delta` being the seconds of the clock.
unfoldable pub next_slot : ℕ → Slot → Slot
next_slot delta s =
    if s.seconds == delta
    then record s { sequence = (s.sequence + 1) % 4_294_967_296 }
    else record { seconds = delta; sequence = 0 }

-- A word in memory, least significant byte first.
word_bytes : ℕ → List ℕ
word_bytes w = w % 256 ∷ w / 256 % 256 ∷ w / 65_536 % 256 ∷ w / 16_777_216 % 256 ∷ []

unfoldable pub raw_id : List ℕ → Slot → List ℕ
unfolding word_bytes
raw_id prefix s = version ∷ (prefix ++ (word_bytes s.seconds ++ word_bytes s.sequence))

unfoldable pub next : ℕ → UniqueIdGenerator → UniqueIdGenerator × Text
next delta g =
    let slot = next_slot delta g.slot in (record g { slot = slot }, hex (raw_id g.prefix slot))
