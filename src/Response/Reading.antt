-- ===== src/Response/Reading.antt =====
-- Reading the bytes of a response in chunks, and putting back what was not sent.
use ehttp.Base.{
  ℕ, ◌+◌, ◌-◌, ◌≤◌, ◌<◌, ◌≡◌, refl, true, false, pos, arith, ltb, leb, lt→ltb, Bytes, length, take,
  drop, min, length-drop, take_all, drop-add,
}
use ehttp.Request.{need_more_status}
use ehttp.Response.Output.{unread, read}
use ehttp.Response.{Response, readsome, rollback}

-- The bytes that are still to be sent.
abbrev pub pending : Response → Bytes
pending r = unread r.res_bytes

-- The stream is good, and its position lies in the buffer.
pub record IsReadable (r : Response) : Type 0 where
  pub not_eof : r.res_bytes.eof ≡ false
  pub not_failed : r.res_bytes.failed ≡ false
  pub within : r.res_bytes.at ≤ length r.res_bytes.buffer

-- The response behind a chunk of `k` bytes with more to come.
abbrev pub advanced : Response → ℕ → ℕ → Response
advanced r k count = record r {
  res_bytes = record (r.res_bytes) {
    at = r.res_bytes.at + k;
    eof = false;
    failed = false;
    count = count;
  };
}

pub readsome_more :
    (r : Response) (n : ℕ)
    → IsReadable r
    → n ≤ length (pending r)
    → readsome r n ≡ (take n (pending r), n, need_more_status, advanced r n n)
unfolding readsome read
readsome_more r n v h =
    let full : min n (length (pending r)) ≡ n = omega arith in
    let more : ltb (length (pending r)) n ≡ false = ground arith in
    rw (v.not_eof, v.not_failed, more, full)

-- A chunk that ends the response.
abbrev pub exhausted : Response → Response
exhausted r = record r {
  res_bytes = record (r.res_bytes) {
    at = r.res_bytes.at + length (pending r);
    eof = true;
    failed = true;
    count = length (pending r);
  };
}

pub readsome_last :
    (r : Response) (n : ℕ)
    → IsReadable r
    → length (pending r) < n
    → readsome r n ≡ (pending r, length (pending r), pos 0, exhausted r)
unfolding readsome read
readsome_last r n v h =
    let rest : min n (length (pending r)) ≡ length (pending r) = omega arith in
    rw (
      v.not_eof,
      v.not_failed,
      lt→ltb (length (pending r)) n h,
      rest,
      take_all n (pending r) (omega arith),
    )

-- Putting back all but the first `k` bytes of a chunk of `n`.
pub rollback-advanced :
    (r : Response) (n k : ℕ)
    → IsReadable r
    → n ≤ length (pending r)
    → k ≤ n
    → rollback (advanced r n n) (n - k) ≡ (pos 0, advanced r k n)
unfolding rollback
rollback-advanced r n k v h le =
    let room = length-drop r.res_bytes.at r.res_bytes.buffer in
    let in_front : leb (n - k) (r.res_bytes.at + n) ≡ true = ground arith in
    let target : r.res_bytes.at + n - (n - k) ≡ r.res_bytes.at + k = omega arith in
    let inside : leb (r.res_bytes.at + k) (length r.res_bytes.buffer) ≡ true =
      ground (arith, room, v.within) in
    rw (in_front, target, inside)

pub pending-advanced :
    (r : Response) (k count : ℕ) → pending (advanced r k count) ≡ drop k (pending r)
pending-advanced r k count = drop-add r.res_bytes.at k r.res_bytes.buffer

pub advanced-IsReadable :
    (r : Response) (k count : ℕ)
    → IsReadable r
    → k ≤ length (pending r)
    → IsReadable (advanced r k count)
advanced-IsReadable r k count v h = record {
  not_eof = refl;
  not_failed = refl;
  within = omega (arith, length-drop r.res_bytes.at r.res_bytes.buffer, v.within);
}
