-- ===== src/KBucket/Operations.antt =====
-- Sequences of operations on one bucket.
use boson_native.Prelude.{ℕ, ◌≤◌, Bool, Option, List, [], ◌∷◌, length, arith}
use boson_native.Id.{NodeId, id_eq}
use boson_native.KBucketEntry.{KBucketEntry, equals, merge, signal_response, signal_request}
use boson_native.KBucketEntry.Matching.{
  merge-SameKey, signal_response-SameKey, signal_request-SameKey,
}
use boson_native.KBucket.{
  put, remove_if_bad, refresh, notify_of_response, on_timeout, on_send, max_entries_per_bucket,
}
use boson_native.KBucket.Size.{
  length-put, length-remove_if_bad, length-on_timeout, length-change_first,
}
use boson_native.KBucket.Apart.{
  IsApart, put-IsApart, remove_if_bad-IsApart, change_first-IsApart, on_timeout-IsApart,
}

pub data Operation : Type 0 where
  putting : Option KBucketEntry → Operation
  removing : KBucketEntry → Bool → Operation
  refreshing : KBucketEntry → Operation
  responding timing_out sending : NodeId → Operation

-- An operation at a time.
pub apply : ℕ → Operation → List KBucketEntry → List KBucketEntry
apply now (putting o) es = put now o es
apply now (removing x force) es = remove_if_bad now x force es
apply now (refreshing x) es = refresh x es
apply now (responding id) es = notify_of_response now id es
apply now (timing_out id) es = on_timeout now id es
apply now (sending id) es = on_send now id es

pub run : List (ℕ × Operation) → List KBucketEntry → List KBucketEntry
run [] es = es
run ((now, op) ∷ ops) es = run ops (apply now op es)

-- At most eight entries, of which no two share an id or an address.
pub record IsBucket (es : List KBucketEntry) : Type 0 where
  pub size : length es ≤ max_entries_per_bucket
  pub apart : IsApart es

apply-IsBucket :
    (now : ℕ) (op : Operation) (es : List KBucketEntry) → IsBucket es → IsBucket (apply now op es)
unfolding apply
apply-IsBucket now (putting o) es h = record {
  size = length-put now o es h.size;
  apart = put-IsApart now o es h.apart;
}
apply-IsBucket now (removing x force) es h = record {
  size = omega (arith, length-remove_if_bad now x force es, h.size);
  apart = remove_if_bad-IsApart now x force es h.apart;
}
apply-IsBucket now (refreshing x) es h =
    unfold refresh in
    record {
      size = omega (arith, length-change_first (λ e. equals e x) (λ e. merge e x) es, h.size);
      apart = change_first-IsApart _ _ (λ e. merge-SameKey e x) es h.apart;
    }
apply-IsBucket now (responding id) es h =
    unfold notify_of_response in
    record {
      size =
          omega (arith, length-change_first (λ e. id_eq e.id id) (signal_response now) es, h.size);
      apart = change_first-IsApart _ _ (signal_response-SameKey now) es h.apart;
    }
apply-IsBucket now (timing_out id) es h = record {
  size = omega (arith, length-on_timeout now id es, h.size);
  apart = on_timeout-IsApart now id es h.apart;
}
apply-IsBucket now (sending id) es h =
    unfold on_send in
    record {
      size =
          omega (arith, length-change_first (λ e. id_eq e.id id) (signal_request now) es, h.size);
      apart = change_first-IsApart _ _ (signal_request-SameKey now) es h.apart;
    }

-- After any sequence of operations, a bucket that held at most eight entries, no two with one id or
-- one address, does so still.
pub run-IsBucket :
    (ops : List (ℕ × Operation)) (es : List KBucketEntry) → IsBucket es → IsBucket (run ops es)
unfolding run
run-IsBucket [] es h = h
run-IsBucket ((now, op) ∷ ops) es h =
    run-IsBucket ops (apply now op es) (apply-IsBucket now op es h)
