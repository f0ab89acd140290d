-- ===== src/Kernel/Trace.antt =====
-- The trace buffer of kernel/src/ipc.rs: the last 64 messages, for the dashboard and MCP.
pub mod History
use freshos.Base.{
  ℕ, zero, suc, ◌+◌, ◌-◌, ◌%◌, min, List, [], ◌∷◌, ltb, leb, ◌==◌, if◌then◌else◌, get_or, set,
  replicate,
}

abbrev pub trace_size : ℕ
trace_size = 64

pub record TraceEntry : Type 0 where
  pub timestamp_ns : ℕ
  pub from_task : ℕ
  pub to_task : ℕ
  pub channel : ℕ
  pub tag : ℕ

abbrev pub empty_trace : TraceEntry
empty_trace = record { timestamp_ns = 0; from_task = 0; to_task = 0; channel = 0; tag = 0 }

pub record TraceBuffer : Type 0 where
  pub entries : List TraceEntry
  pub head : ℕ
  pub count : ℕ

abbrev pub start : TraceBuffer
start = record { entries = replicate trace_size empty_trace; head = 0; count = 0 }

unfoldable pub trace_record : TraceBuffer → TraceEntry → TraceBuffer
trace_record tb entry = record {
  entries = set tb.entries tb.head entry;
  head = (tb.head + 1) % trace_size;
  count = if ltb tb.count trace_size then tb.count + 1 else tb.count;
}

-- `for i in i..i + n` of `trace_read`: what is copied, from the index `first`.
unfoldable pub copy_entries : TraceBuffer → ℕ → ℕ → ℕ → List TraceEntry
copy_entries tb first i zero = []
copy_entries tb first i (suc n) =
    get_or tb.entries ((first + i) % trace_size) empty_trace ∷ copy_entries tb first (i + 1) n

-- What is written to a buffer of `len` entries.
unfoldable pub trace_read : TraceBuffer → ℕ → ℕ → List TraceEntry
unfolding copy_entries
trace_read tb len max =
    let n : ℕ = min (min tb.count max) len in
    let start : ℕ = if leb trace_size tb.count then tb.head else 0 in
    let skip : ℕ = tb.count - n in if n == 0 then [] else copy_entries tb (start + skip) 0 n
