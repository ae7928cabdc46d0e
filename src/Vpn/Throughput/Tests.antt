-- ===== src/Vpn/Throughput/Tests.antt =====
-- Samples of vpn/throughput_tracker.go on concrete connections.
use radiance.Common.{◌≡◌, refl, false, List, [], ◌∷◌}
use radiance.Common.Int.{pos, ◌+ℤ◌, ◌-ℤ◌}
use radiance.Vpn.Throughput.{
  join, count_bytes, without, close_record, hand_over_record, remove_record, visit, add_delta,
  apply_delta, apply_closed_delta, apply_closed_deltas,
}
use radiance.Vpn.Throughput.Phases.{
  Event, joins, counts, closes, hands_over, removes, starts, visits, drains, step, run, fresh,
  start_sample, finish_sample,
}
use radiance.Vpn.Throughput.Account.{credit, uplink, downlink, own}
use radiance.Vpn.Throughput.Accounted.{counted_again, credited, Accounted, run-Accounted}

-- A connection counts, is looked at, counts on, leaves, counts what was under way,
-- and its close is taken in the same sample, before it is removed.
abbrev closed_after_look : List Event
closed_after_look =
    joins 7 "proxy"
    ∷ counts 7 (record { up = 30; down = 5 })
    ∷ starts 1
    ∷ visits
    ∷ counts 7 (record { up = 12; down = 0 })
    ∷ closes 7
    ∷ closes 7
    ∷ counts 7 (record { up = 3; down = 0 })
    ∷ hands_over 7
    ∷ drains
    ∷ removes 7
    ∷ starts 2
    ∷ drains
    ∷ []

not_again : counted_again 7 false fresh closed_after_look ≡ false
unfolding credit run step join count_bytes without finish_sample apply_closed_deltas close_record
    hand_over_record remove_record apply_closed_delta visit add_delta ◌+ℤ◌ ◌-ℤ◌ apply_delta
    start_sample own counted_again
not_again = refl

run-Accounted_example :
    let w = run fresh closed_after_look in
    Accounted uplink false (credited uplink 7 w) (own 7 w.tracker.pending) (w.tracker.records 7)
unfolding counted_again step join count_bytes without
run-Accounted_example = run-Accounted uplink 7 closed_after_look

credited_up : credited uplink 7 (run fresh closed_after_look) ≡ pos 42
unfolding credit run step join count_bytes without finish_sample apply_closed_deltas close_record
    hand_over_record remove_record apply_closed_delta visit add_delta ◌+ℤ◌ ◌-ℤ◌ apply_delta
    start_sample own
credited_up = refl

credited_down : credited downlink 7 (run fresh closed_after_look) ≡ pos 5
unfolding credit run step join count_bytes without finish_sample apply_closed_deltas close_record
    hand_over_record remove_record apply_closed_delta visit add_delta ◌+ℤ◌ ◌-ℤ◌ apply_delta
    start_sample own
credited_down = refl

-- The next sample looks at the connection before it is removed, with its close taken.
abbrev looked_again : List Event
looked_again =
    joins 7 "proxy"
    ∷ counts 7 (record { up = 30; down = 5 })
    ∷ starts 1
    ∷ visits
    ∷ closes 7
    ∷ hands_over 7
    ∷ drains
    ∷ starts 2
    ∷ visits
    ∷ removes 7
    ∷ drains
    ∷ []

-- Its 30 bytes are counted twice.
credited_again : credited uplink 7 (run fresh looked_again) ≡ pos 60
unfolding credit run step join count_bytes without finish_sample apply_closed_deltas close_record
    hand_over_record remove_record apply_closed_delta visit add_delta ◌+ℤ◌ ◌-ℤ◌ apply_delta
    start_sample own
credited_again = refl
