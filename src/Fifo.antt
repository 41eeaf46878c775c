-- ===== src/Fifo.antt =====
-- drivers/oss7_modem/fifo.c and include/fifo.h: a byte queue in a circular buffer.
-- A function that updates `*fifo` returns the new record beside its status, and one that fills a
-- caller's buffer returns the filled buffer. `head_idx`, `tail_idx` and `max_size` are uint16_t.
-- Sums in conditions are C `int`s and do not wrap; what is stored in a uint16_t does.
pub mod Valid
pub mod Put
pub mod Take
pub mod View
pub mod Interrupt
pub mod Trace
mod Tests
use riot_oss7_modem.Common.{
  ℕ, ◌+◌, ◌-◌, ◌%◌, Bool, true, false, ltb, leb, ◌==◌, if◌then◌else◌, u16, sub16, ◌&&◌, Outcome,
  done, fault, assertion,
}
use riot_oss7_modem.Common.Memory.{Bytes, advance, memcpy}

-- The `error_t` values that the fifo returns: SUCCESS, EINVAL of errno.h, and ESIZE.
pub data ErrorCode : Type 0 where
  success einval esize : ErrorCode

-- `fifo_t`
pub record Fifo : Type 0 where
  pub head_idx : ℕ
  pub tail_idx : ℕ
  pub max_size : ℕ
  pub buffer : Bytes
  pub is_subview : Bool

unfoldable pub init_filled : Bytes → ℕ → ℕ → Fifo
init_filled buffer filled_size max_size = record {
  head_idx = 0;
  tail_idx = filled_size;
  max_size = sub16 max_size 1;
  buffer = buffer;
  is_subview = false;
}

unfoldable pub init : Bytes → ℕ → Fifo
unfolding init_filled
init buffer max_size = init_filled buffer 0 max_size

-- `max_size - head_idx` may be negative in C; the sum is not, and is cut to 16 bits.
unfoldable pub get_size : Fifo → ℕ
get_size fifo =
    if leb head_idx tail_idx
    then u16 (tail_idx - head_idx)
    else sub16 (tail_idx + max_size) head_idx
  where
    open fifo use {head_idx, tail_idx, max_size}

-- The tail of a subview, with its wrap.
subview_tail : Fifo → ℕ → ℕ → ℕ
subview_tail original offset subset_size =
    let tail = u16 (original.head_idx + offset + subset_size) in
    if ltb original.max_size tail then sub16 tail original.max_size else tail

-- Both asserts come first. The subview shares the buffer.
unfoldable pub init_subview : Fifo → ℕ → ℕ → Outcome Fifo
unfolding subview_tail get_size
init_subview original offset subset_size =
    if leb subset_size (get_size original) && leb (subset_size + offset) original.max_size
    then done (record {
      head_idx = u16 (original.head_idx + offset);
      tail_idx = subview_tail original offset subset_size;
      max_size = original.max_size;
      buffer = original.buffer;
      is_subview = true;
    })
    else fault assertion

-- `memcpy` to the tail, and advance it.
put_at_tail : Fifo → Bytes → ℕ → Fifo
put_at_tail fifo bytes len = record fifo {
  buffer = memcpy fifo.buffer fifo.tail_idx bytes len;
  tail_idx = u16 (fifo.tail_idx + len);
}

-- The last part of `fifo_put`: fill up to the end, and go on at the start if there is room.
put_wrapping : Fifo → Bytes → ℕ → ErrorCode × Fifo
put_wrapping fifo bytes len =
    let space_left_before_max_size = sub16 fifo.max_size fifo.tail_idx in
    let space_needed_after_wrap = sub16 len space_left_before_max_size in
    if ltb space_needed_after_wrap fifo.head_idx
    then (
      success,
      record fifo {
        buffer =
            memcpy (memcpy fifo.buffer fifo.tail_idx bytes space_left_before_max_size) 0
              (advance bytes space_left_before_max_size) space_needed_after_wrap;
        tail_idx = space_needed_after_wrap;
      },
    )
    else (esize, fifo)

unfoldable pub put : Fifo → Bytes → ℕ → ErrorCode × Fifo
unfolding put_at_tail put_wrapping
put fifo bytes len =
    if fifo.is_subview
    then (einval, fifo)
    else if ltb fifo.tail_idx fifo.head_idx
    then (if leb fifo.head_idx (fifo.tail_idx + len)
        then (esize, fifo)
        else (success, put_at_tail fifo bytes len))
    else if leb (fifo.tail_idx + len) fifo.max_size
    then (success, put_at_tail fifo bytes len)
    else put_wrapping fifo bytes len

unfoldable pub put_byte : Fifo → ℕ → ErrorCode × Fifo
unfolding put
put_byte fifo byte = put fifo (λ _. byte) 1

pub check_len : Fifo → ℕ → ErrorCode
unfolding get_size
check_len fifo len =
    if len == 0 then success else if ltb (get_size fifo) len then esize else success

-- The static `skip`. `% 0` does not arise in a valid fifo.
pub progress_head : Fifo → ℕ → Fifo
progress_head fifo len =
    let head = u16 (fifo.head_idx + len) in
    record fifo { head_idx = if ltb fifo.max_size head then head % fifo.max_size else head }

-- `fifo_skip`
unfoldable pub skip : Fifo → ℕ → ErrorCode × Fifo
unfolding check_len progress_head
skip fifo len = elim (check_len fifo len) [
  | success ↦ (success, progress_head fifo len)
  | err ↦ (err, fifo)
]

-- The copying part of `fifo_peek`, in one piece or two.
copy_from : Fifo → Bytes → ℕ → ℕ → ℕ → Bytes
copy_from fifo out start_idx end_idx len =
    let part1 = sub16 fifo.max_size start_idx in
    if leb start_idx end_idx
    then memcpy out 0 (advance fifo.buffer start_idx) len
    else memcpy (memcpy out 0 (advance fifo.buffer start_idx) part1) part1 fifo.buffer (len - part1)

pub peek_copy : Fifo → Bytes → ℕ → ℕ → Bytes
unfolding copy_from
peek_copy fifo out offset len =
    let start_idx = (fifo.head_idx + offset) % fifo.max_size in
    copy_from fifo out start_idx ((start_idx + len) % fifo.max_size) len

unfoldable pub peek : Fifo → Bytes → ℕ → ℕ → ErrorCode × Bytes
unfolding check_len peek_copy
peek fifo out offset len = elim (check_len fifo len) [
  | success ↦ (success, peek_copy fifo out offset len)
  | err ↦ (err, out)
]

-- The status, the buffer that is filled, and the fifo.
unfoldable pub pop : Fifo → Bytes → ℕ → ErrorCode × Bytes × Fifo
unfolding peek progress_head
pop fifo out len =
    let (err, out') = peek fifo out 0 len in
    elim err [ success ↦ (success, out', progress_head fifo len) | err' ↦ (err', out', fifo) ]

unfoldable pub clear : Fifo → Fifo
clear fifo = record fifo { head_idx = 0; tail_idx = 0 }

unfoldable pub is_full : Fifo → Bool
unfolding get_size
is_full fifo = get_size fifo == fifo.max_size
