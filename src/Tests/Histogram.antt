-- ===== src/Tests/Histogram.antt =====
-- A report of a histogram that others count in meanwhile.
use rocketmq_client_cpp.Prelude.{◌≡◌, ◌+◌, refl, arith, [], ◌∷◌, List}
use rocketmq_client_cpp.Prelude.Int.{pos, negsuc}
use rocketmq_client_cpp.Prelude.Text.{codes}
use rocketmq_client_cpp.Prelude.Word.{u32}
use rocketmq_client_cpp.Histogram.{
  Histogram, Visit, load, report_loop, count_latency, count_elapsed, assign_labels, count_in,
  count_all, fetch_add, fetch_sub, latency_histogram, count_all, count_in, fetch_add, fetch_sub,
}
use rocketmq_client_cpp.Histogram.Conserved.{counted, report_loop-conserves}

abbrev loads : Histogram
loads = record { title = codes "Loads"; counts = 5 ∷ 0 ∷ 2 ∷ []; capacity = 3; labels = [] }

-- Of the grades 0, 7 and -1, counted in between the load and the subtraction of the first slot.
abbrev visits : List Visit
visits =
    record { before = []; between = pos 0 ∷ pos 7 ∷ negsuc 0 ∷ [] }
    ∷ record { before = pos 2 ∷ []; between = [] }
    ∷ record { before = []; between = pos 9 ∷ [] }
    ∷ []

report_run :
    ((report_loop visits 0 loads).0.counts ≡ 1 ∷ 0 ∷ 1 ∷ [])
    × ((report_loop visits 0 loads).1 ≡ 5 ∷ 0 ∷ 4 ∷ [])
unfolding report_loop count_all count_in fetch_add fetch_sub load
report_run = (refl, refl)

latency_run :
    ((count_latency (pos 75) latency_histogram).counts
      ≡ 0 ∷ 0 ∷ 0 ∷ 1 ∷ 0 ∷ 0 ∷ 0 ∷ 0 ∷ 0 ∷ 0 ∷ 0 ∷ [])
    × (count_latency (negsuc 3) latency_histogram ≡ latency_histogram)
unfolding count_latency count_elapsed count_in fetch_add assign_labels
latency_run = (refl, refl)

report_loop-conserves_example :
    u32 (load 2 (report_loop visits 0 loads).0.counts + load 2 (report_loop visits 0 loads).1)
    ≡ u32 (load 2 loads.counts + counted 3 2 visits)
report_loop-conserves_example = report_loop-conserves loads visits 2 refl (omega arith)
