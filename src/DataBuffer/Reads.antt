-- ===== src/DataBuffer/Reads.antt =====
-- DataBuffer::impl_read and impl_peek, seen as consuming a list of bytes.
use recap_server.Prelude.{
  ℕ, ◌+◌, ◌≤◌, ◌<◌, ◌≡◌, refl, ap, ◌∙◌, List, ◌++◌, some, arith, length, drop, take, length-append,
  length-drop, drop-add, take-length_append, drop-length_append,
}
use recap_server.Prelude.Bytes.{u64_mod}
use recap_server.DataBuffer.{DataBuffer, can_rw, impl_read}
use recap_server.DataBuffer.Writes.{Wrote, Wrote-drop}

abbrev pub advance : DataBuffer → ℕ → DataBuffer
advance b n = record b { position = b.position + n }

-- `xs` stands between the cursor and the end of the vector.
pub record Unread (b : DataBuffer) (xs : List ℕ) : Type 0 where
  pub inside : b.position ≤ length b.buffer
  pub fits : length b.buffer < u64_mod
  pub left : drop b.position b.buffer ≡ xs

pub Unread-length :
    {b : DataBuffer} {xs : List ℕ} → Unread b xs → b.position + length xs ≡ length b.buffer
Unread-length {b} {xs} u =
    omega (arith, ap length u.left, length-drop b.position b.buffer, u.inside)

pub impl_read-Unread :
    {b : DataBuffer} (xs ys : List ℕ)
    → Unread b (xs ++ ys)
    → (impl_read b (length xs) ≡ (some xs, advance b (length xs)))
      × Unread (advance b (length xs)) ys
unfolding impl_read can_rw
impl_read-Unread {b} xs ys u =
    let total = Unread-length u in
    let parts = length-append xs ys in
    let got : take (length xs) (drop b.position b.buffer) ≡ xs =
      ap (take (length xs)) u.left ∙ take-length_append (length xs) xs ys refl in
    (
      ground (arith, total, parts, got, u.fits),
      record {
        inside = omega (arith, total, parts);
        fits = u.fits;
        left =
            drop-add b.position (length xs) b.buffer
            ∙ ap (drop (length xs)) u.left
            ∙ drop-length_append (length xs) xs ys refl;
      },
    )

-- Reading from where a write began finds the bytes that were written.
pub Wrote-Unread :
    {b b' : DataBuffer} (bytes : List ℕ)
    → b.position ≤ length b.buffer
    → length b'.buffer < u64_mod
    → Wrote b bytes b'
    → Unread (record b' { position = b.position }) (bytes ++ drop b'.position b'.buffer)
Wrote-Unread bytes inside fits w = record {
  inside = omega (arith, w.cursor, w.room);
  fits = fits;
  left = Wrote-drop bytes inside w;
}
