-- ===== src/Candidates/Tests.antt =====
-- The theorem on the choice of a candidate at concrete candidates.
use boson_native.Prelude.{ℕ, true, some, [], ◌∷◌, ◌≡◌, refl, arith}
use boson_native.Samples.{sample_id, sample_id-IsId, sample_addr}
use boson_native.Candidates.{
  CandidateNode, ClosestCandidates, next, is_eligible, sort, insert, filter, ordered_before,
  candidate_order,
}
use boson_native.Candidates.Choice.{IsChoice, next-IsChoice}

abbrev candidate : ℕ → ℕ → ℕ → CandidateNode
candidate b sent pinged = record {
  ptr = b;
  id = sample_id b;
  addr = sample_addr b;
  last_sent = sent;
  last_reply = 0;
  reachable = true;
  pinged = pinged;
  token = 0;
}

-- One asked once, one under way, one not asked.
abbrev three : ClosestCandidates
three = record {
  target = sample_id 9;
  capacity = 8;
  dedup_ids = [];
  dedup_addrs = [];
  closest = candidate 1 0 1 ∷ candidate 2 700 1 ∷ candidate 3 0 0 ∷ [];
}

next-IsChoice_example : IsChoice three (next three)
next-IsChoice_example = next-IsChoice three (sample_id-IsId 9 (omega arith)) (
  sample_id-IsId 1 (omega arith),
  (sample_id-IsId 2 (omega arith), (sample_id-IsId 3 (omega arith), tt)),
)

next-three : next three ≡ some (candidate 3 0 0)
unfolding next sort insert filter is_eligible ordered_before candidate_order
next-three = refl
