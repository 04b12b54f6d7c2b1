-- ===== src/Examples/Run.antt =====
-- A run of one thread that registers, and twice pins, unlinks a node and retires it. The second time
-- the first node is freed.
use skiplist.Base.{refl, arith}
use skiplist.Reclaim.{Ebr, init, Step, Reach}

abbrev Run : Type 0
Run = (s : Ebr) × Reach s

abbrev next : (r : Run) {s' : Ebr} → Step r.0 s' → Run
next r {s'} step = (s', Reach.later r.1 step)

abbrev run_0 : Run
run_0 = (init, Reach.start)

abbrev run_1 : Run
run_1 = next run_0 (Step.claim 0 (omega arith) refl)

abbrev run_2 : Run
run_2 = next run_1 (Step.reset_epoch 0 refl)

abbrev run_3 : Run
run_3 = next run_2 (Step.reset_active 0 refl)

abbrev run_4 : Run
run_4 = next run_3 (Step.raise 0 refl)

abbrev run_5 : Run
run_5 = next run_4 (Step.announce 0 refl refl)

abbrev run_6 : Run
run_6 = next run_5 (Step.load_epoch 0 refl)

abbrev run_7 : Run
run_7 = next run_6 (Step.publish_epoch 0 1 refl)

abbrev run_8 : Run
run_8 = next run_7 (Step.reach 0 7 refl refl)

abbrev run_9 : Run
run_9 = next run_8 (Step.unlink 0 7 refl refl)

abbrev run_10 : Run
run_10 = next run_9 (Step.stamp 0 7 refl)

abbrev run_11 : Run
run_11 = next run_10 (Step.push 0 7 1 refl)

abbrev run_12 : Run
run_12 = next run_11 (Step.load_global 0 refl)

abbrev run_13 : Run
run_13 = next run_12 (Step.load_count 0 1 refl)

abbrev run_14 : Run
run_14 = next run_13 (Step.see_active 0 1 1 0 refl (omega arith) refl)

abbrev run_15 : Run
run_15 = next run_14 (Step.caught_up 0 1 1 0 refl (omega arith))

abbrev run_16 : Run
run_16 = next run_15 (Step.advance 0 1 1 1 refl (omega arith) refl (omega arith))

abbrev run_17 : Run
run_17 = next run_16 (Step.reclaim 0 2 refl (omega arith))

abbrev run_18 : Run
run_18 = next run_17 (Step.unpin 0 refl refl)

abbrev run_19 : Run
run_19 = next run_18 (Step.announce 0 refl refl)

abbrev run_20 : Run
run_20 = next run_19 (Step.load_epoch 0 refl)

abbrev run_21 : Run
run_21 = next run_20 (Step.publish_epoch 0 2 refl)

abbrev run_22 : Run
run_22 = next run_21 (Step.reach 0 8 refl refl)

abbrev run_23 : Run
run_23 = next run_22 (Step.unlink 0 8 refl refl)

abbrev run_24 : Run
run_24 = next run_23 (Step.stamp 0 8 refl)

abbrev run_25 : Run
run_25 = next run_24 (Step.push 0 8 2 refl)

abbrev run_26 : Run
run_26 = next run_25 (Step.load_global 0 refl)

abbrev run_27 : Run
run_27 = next run_26 (Step.load_count 0 2 refl)

abbrev run_28 : Run
run_28 = next run_27 (Step.see_active 0 2 1 0 refl (omega arith) refl)

abbrev run_29 : Run
run_29 = next run_28 (Step.caught_up 0 2 1 0 refl (omega arith))

abbrev run_30 : Run
run_30 = next run_29 (Step.advance 0 2 1 1 refl (omega arith) refl (omega arith))

abbrev pub freeing_run : Run
freeing_run = next run_30 (Step.reclaim 0 3 refl (omega arith))
