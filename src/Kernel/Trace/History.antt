-- ===== src/Kernel/Trace/History.antt =====
-- The trace buffer against the history of every message ever recorded.
use freshos.Base.{
  ℕ, zero, suc, ◌+◌, ◌-◌, ◌%◌, ◌<◌, ◌≤◌, min, ◌≡◌, refl, ap, ◌∙◌, List, [], ◌∷◌, ◌++◌, arith,
  length, length-set, length-append, length-replicate, get_or, get_or-set, get_or-append_lt,
  get_or-append_last, append-nil, append_assoc, subst, drop, drop_all, dec_lt, dec_le,
}
use freshos.Base.Ring.{slice, slice_shift, slice-get_or}
use freshos.Kernel.Trace.{
  TraceEntry, TraceBuffer, empty_trace, trace_size, start, trace_record, copy_entries, trace_read,
}

-- The buffer holds the end of the history `log`, oldest first.
pub record Holds (tb : TraceBuffer) (log : List TraceEntry) : Type 0 where
  pub size : length tb.entries ≡ trace_size
  pub head_at : tb.head ≡ length log % trace_size
  pub counted : tb.count ≡ min (length log) trace_size
  pub recent :
      (k : ℕ)
      → k < length log
      → length log ≤ k + trace_size
      → get_or tb.entries (k % trace_size) empty_trace ≡ get_or log k empty_trace

pub start-Holds : Holds start []
start-Holds = record {
  size = length-replicate trace_size empty_trace;
  head_at = omega arith;
  counted = omega arith;
  recent = λ k h. absurd (omega arith);
}

pub trace_record-Holds :
    (tb : TraceBuffer) (log : List TraceEntry) (entry : TraceEntry)
    → Holds tb log
    → Holds (trace_record tb entry) (log ++ (entry ∷ []))
unfolding trace_record
trace_record-Holds tb log entry h = record {
  size = length-set tb.entries tb.head entry ∙ h.size;
  head_at = omega (arith, h.head_at, length-append {0} log (entry ∷ []));
  counted = ground (arith, h.counted, length-append {0} log (entry ∷ []));
  recent = λ k p q.
      let n : length (log ++ (entry ∷ [])) ≡ length log + 1 = length-append log (entry ∷ []) in
      let w =
        get_or-set tb.entries tb.head (k % trace_size) entry empty_trace
          (omega (arith, h.head_at, h.size)) in
      elim (dec_lt k (length log)) [
        | yes old ↦
            ground
              (arith, w, h.head_at, h.recent k, get_or-append_lt log (entry ∷ []) k empty_trace)
        | no new ↦
            (let e : k ≡ length log = omega arith in
              rw e (ground (arith, rw e at w, h.head_at, get_or-append_last log entry empty_trace)))
      ];
}

copy_entries-slice :
    (tb : TraceBuffer) (first i n : ℕ)
    → copy_entries tb first i n
      ≡ slice (λ j. get_or tb.entries ((first + j) % trace_size) empty_trace) i n
unfolding copy_entries
copy_entries-slice tb first i zero = refl
copy_entries-slice tb first i (suc n) =
    ap (◌∷◌ (get_or tb.entries ((first + i) % trace_size) empty_trace))
      (copy_entries-slice tb first (i + 1) n)

pub record_all : TraceBuffer → List TraceEntry → TraceBuffer
record_all tb [] = tb
record_all tb (e ∷ es) = record_all (trace_record tb e) es

copied :
    (tb : TraceBuffer) (log : List TraceEntry) (first n : ℕ)
    → Holds tb log
    → n ≤ tb.count
    → ((i : ℕ) → i < n → (first + (0 + i)) % trace_size ≡ (length log - n + i) % trace_size)
    → copy_entries tb first 0 n ≡ drop (length log - n) log
copied tb log first n h le place =
    copy_entries-slice tb first 0 n
    ∙ slice_shift _ (λ k. get_or log k empty_trace) 0 (length log - n) n
        (λ i lt.
          ap (λ p. get_or tb.entries p empty_trace) (place i lt)
          ∙ h.recent (length log - n + i) (omega (arith, h.counted)) (omega (arith, h.counted)))
    ∙ slice-get_or log empty_trace (length log - n) n (omega (arith, h.counted))

-- Reading a trace that holds the end of a history copies the last entries of that history, oldest
-- first: as many as are asked for, fit the buffer and are still held.
pub trace_read_last :
    (tb : TraceBuffer) (log : List TraceEntry) (len max : ℕ)
    → Holds tb log
    → trace_read tb len max ≡ drop (length log - min (min (min (length log) 64) max) len) log
unfolding trace_read
trace_read_last tb log len max h = elim (dec_le trace_size tb.count) [
  | yes full ↦ ground (
    arith,
    h.counted,
    drop_all (length log) log,
    copied tb log (tb.head + (tb.count - window)) window h (omega arith)
        (λ i lt. omega (arith, h.head_at, h.counted)),
  )
  | no part ↦ ground (
    arith,
    h.counted,
    drop_all (length log) log,
    copied tb log (0 + (tb.count - window)) window h (omega arith)
        (λ i lt. omega (arith, h.counted)),
  )
]
  where
    window : ℕ
    window = min (min tb.count max) len

record_all-Holds :
    (tb : TraceBuffer) (log es : List TraceEntry)
    → Holds tb log
    → Holds (record_all tb es) (log ++ es)
unfolding record_all
record_all-Holds tb log [] h = rw append-nil h
record_all-Holds tb log (e ∷ es) h =
    subst (Holds (record_all (trace_record tb e) es)) (append_assoc log (e ∷ []) es)
      (record_all-Holds (trace_record tb e) (log ++ (e ∷ [])) es (trace_record-Holds tb log e h))

-- After any messages have been recorded from boot on, a read copies the last of them, oldest first:
-- as many as were recorded, up to the 64 that the buffer holds, the `max` asked for and the `len`
-- entries of the reader's buffer.
pub trace_read-record_all :
    (log : List TraceEntry) (len max : ℕ)
    → trace_read (record_all start log) len max
      ≡ drop (length log - min (min (min (length log) 64) max) len) log
trace_read-record_all log len max =
    trace_read_last (record_all start log) log len max (record_all-Holds start [] log start-Holds)
