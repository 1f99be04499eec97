-- ===== src/Histogram.antt =====
-- Histogram of src/main/cpp/base/include/Histogram.h, counts by grade that several threads add to while one reports,
-- and the histogram of latencies of src/main/cpp/client/ClientManagerImpl.cpp.
pub mod Conserved
use rocketmq_client_cpp.Prelude.{
  ℕ, ◌/◌, ◌+◌, ◌-◌, ◌==◌, Option, none, some, List, [], ◌∷◌, ◌++◌, if◌then◌else◌, leb, ltb, length,
  Bool, false, true, suc,
}
use rocketmq_client_cpp.Prelude.Int.{ℤ, pos, negsuc}
use rocketmq_client_cpp.Prelude.Text.{Text, codes}
use rocketmq_client_cpp.Prelude.Decimal.{to_string}
use rocketmq_client_cpp.Prelude.Word.{u32, sub_u32}
use Prim.Native.Nat.{zero}

-- The counters are `int32_t`; they are kept modulo 2^32.
pub record Histogram : Type 0 where
  pub title : Text
  pub counts : List ℕ
  pub capacity : ℕ
  pub labels : List Text

abbrev zeros : ℕ → List ℕ
zeros zero = []
zeros (suc n) = 0 ∷ zeros n

abbrev pub init : Text → ℕ → Histogram
init title capacity = record {
  title = title;
  counts = zeros capacity;
  capacity = capacity;
  labels = [];
}

-- `load` of a slot.
unfoldable pub load : ℕ → List ℕ → ℕ
load i [] = 0
load zero (x ∷ xs) = x
load (suc i) (x ∷ xs) = load i xs

-- `fetch_add` on a slot.
unfoldable pub fetch_add : ℕ → ℕ → List ℕ → List ℕ
fetch_add i n [] = []
fetch_add zero n (x ∷ xs) = u32 (x + n) ∷ xs
fetch_add (suc i) n (x ∷ xs) = x ∷ fetch_add i n xs

-- `fetch_sub` on a slot.
unfoldable pub fetch_sub : ℕ → ℕ → List ℕ → List ℕ
fetch_sub i n [] = []
fetch_sub zero n (x ∷ xs) = sub_u32 x n ∷ xs
fetch_sub (suc i) n (x ∷ xs) = x ∷ fetch_sub i n xs

-- With no slot the source writes out of range; here nothing is counted then.
unfoldable pub count_in : ℤ → Histogram → Histogram
count_in (negsuc g) h = h
count_in (pos g) h =
    if leb h.capacity g
    then record h { counts = fetch_add (h.capacity - 1) 1 h.counts }
    else record h { counts = fetch_add g 1 h.counts }

-- The grades that other threads count in, one after another.
unfoldable pub count_all : List ℤ → Histogram → Histogram
count_all [] h = h
count_all (g ∷ gs) h = count_all gs (count_in g h)

-- What other threads count in while the loop of `reportAndReset` is at a slot: before it loads the value, and
-- between the load and the subtraction.
pub record Visit : Type 0 where
  pub before : List ℤ
  pub between : List ℤ

-- The loop of `reportAndReset` from a slot on, with the visits to come: the values that it reads.
unfoldable pub report_loop : List Visit → ℕ → Histogram → Histogram × List ℕ
report_loop [] i h = (h, [])
report_loop (visit ∷ visits) i h =
    let h = count_all visit.before h in
    let value = load i h.counts in
    let h = count_all visit.between h in
    let (h, values) =
      report_loop visits (suc i) (record h { counts = fetch_sub i value h.counts }) in
    (h, value ∷ values)

-- A counter as `int32_t`.
abbrev signed : ℕ → ℤ
signed n = if ltb n 2_147_483_648 then pos n else negsuc (4_294_967_295 - n)

-- The labels, each with its value; the separator is before all but the first.
unfoldable pub report_text : Bool → List Text → List ℕ → Text
report_text more (label ∷ labels) (value ∷ values) =
    (if more then codes ", " else [])
    ++ (label ++ (to_string (signed value) ++ report_text true labels values))
report_text more labels values = []

-- `reportAndReset`, whose assertion is on the number of the labels.
unfoldable pub report_and_reset : List Visit → Histogram → Option (Histogram × Text)
report_and_reset visits h =
    if length h.labels == h.capacity
    then (let (h', values) = report_loop visits 0 h in
        some (h', h.title ++ (codes ":" ++ report_text false h.labels values)))
    else none

unfoldable pub assign_labels : Histogram → Histogram
assign_labels h = record h {
  labels =
      h.labels
      ++ (codes "[000ms~020ms): "
          ∷ codes "[020ms~040ms): "
          ∷ codes "[040ms~060ms): "
          ∷ codes "[060ms~080ms): "
          ∷ codes "[080ms~100ms): "
          ∷ codes "[100ms~120ms): "
          ∷ codes "[120ms~140ms): "
          ∷ codes "[140ms~160ms): "
          ∷ codes "[160ms~180ms): "
          ∷ codes "[180ms~200ms): "
          ∷ codes "[200ms~inf): "
          ∷ []);
}

abbrev pub latency_histogram : Histogram
latency_histogram = assign_labels (init (codes "Message-Latency") 11)

-- The cast to `int32_t`.
abbrev to_int32 : ℤ → ℤ
to_int32 (pos n) = signed (u32 n)
to_int32 (negsuc n) = signed (4_294_967_295 - u32 n)

-- A latency is counted in by 20 milliseconds, unless the message comes from the future.
unfoldable pub count_elapsed : ℤ → Histogram → Histogram
unfolding count_in
count_elapsed (negsuc n) h = h
count_elapsed (pos n) h = count_in (pos (n / 20)) h

-- What the end of `wrapMessage` counts, from the milliseconds since the message was stored.
unfoldable pub count_latency : ℤ → Histogram → Histogram
unfolding count_elapsed
count_latency elapsed h = count_elapsed (to_int32 elapsed) h
