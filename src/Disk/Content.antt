-- ===== src/Disk/Content.antt =====
-- The bytes of a file behind a `pwrite`.
use replicated_block_store.Prelude.{
  ℕ, zero, suc, ◌+◌, ◌-◌, ◌≤◌, ◌≡◌, refl, ap, sym, ◌∙◌, [], ◌∷◌, ◌++◌, append-nil, append_assoc,
  arith, Bytes, length, take, drop, replicate, length-append, length-take, length-replicate,
  drop-append, take-append, drop_all, length-drop, leb, true, some,
}
use replicated_block_store.Disk.{overwrite, bytes_at}

-- What stands in front of the bytes written.
front : Bytes → ℕ → Bytes
front content offset = take offset (content ++ replicate (offset - length content) 0)

length-front : (content : Bytes) (offset : ℕ) → length (front content offset) ≡ offset
unfolding front
length-front content offset = omega (
  arith,
  length-take offset (content ++ replicate (offset - length content) 0),
  length-append content (replicate (offset - length content) 0),
  length-replicate (offset - length content) zero,
)

-- Reading where a write was made gives the bytes written, wherever the file ended before.
pub read-overwrite :
    (content buf : Bytes) (offset : ℕ)
    → take (length buf) (drop offset (overwrite content buf offset)) ≡ buf
unfolding overwrite front
read-overwrite content buf offset =
    ap (take (length buf))
      (drop-append offset (front content offset) _ (sym (length-front content offset)))
    ∙ take-append (length buf) buf _ refl

-- The bytes in front of the write are kept.
pub take-overwrite :
    (content buf : Bytes) (offset : ℕ)
    → offset ≤ length content
    → take offset (overwrite content buf offset) ≡ take offset content
unfolding overwrite front
take-overwrite content buf offset h =
    let gap : offset - length content ≡ 0 = omega arith in
    take-append offset (front content offset) _ (sym (length-front content offset))
    ∙ rw gap (ap (take offset) (append-nil content))

-- The bytes behind the write are kept.
pub drop-overwrite :
    (content buf : Bytes) (offset : ℕ)
    → drop (offset + length buf) (overwrite content buf offset) ≡ drop (offset + length buf) content
unfolding overwrite front
drop-overwrite content buf offset =
    ap (drop (offset + length buf)) (sym (append_assoc (front content offset) buf _))
    ∙ drop-append (offset + length buf) (front content offset ++ buf) _
        (omega (arith, length-append (front content offset) buf, length-front content offset))

-- A write within the file keeps its length.
pub length-overwrite :
    (content buf : Bytes) (offset : ℕ)
    → offset + length buf ≤ length content
    → length (overwrite content buf offset) ≡ length content
unfolding overwrite front
length-overwrite content buf offset h = omega (
  arith,
  length-front content offset,
  length-append (front content offset) (buf ++ drop (offset + length buf) content),
  length-append buf (drop (offset + length buf) content),
  length-drop (offset + length buf) content,
)

-- A text written over one that is not longer leaves nothing of it.
pub overwrite_all :
    (content buf : Bytes) → length content ≤ length buf → overwrite content buf 0 ≡ buf
unfolding overwrite
overwrite_all content buf h = rw (drop_all (0 + length buf) content (omega arith)) (append-nil buf)

-- A write that reaches the end of the file, or passes it.
pub overwrite_tail :
    (content buf : Bytes) (offset : ℕ)
    → offset ≤ length content
    → length content ≤ offset + length buf
    → overwrite content buf offset ≡ take offset content ++ buf
unfolding overwrite
overwrite_tail content buf offset h k =
    let gap : offset - length content ≡ 0 = omega arith in
    rw (gap, drop_all (offset + length buf) content k, append-nil content, append-nil buf)

drop-append_le : (n : ℕ) (xs ys : Bytes) → n ≤ length xs → drop n (xs ++ ys) ≡ drop n xs ++ ys
drop-append_le zero xs ys h = refl
drop-append_le (suc n) [] ys h = absurd (omega arith)
drop-append_le (suc n) (x ∷ xs) ys h = drop-append_le n xs ys (omega arith)

take-append_le : (n : ℕ) (xs ys : Bytes) → n ≤ length xs → take n (xs ++ ys) ≡ take n xs
take-append_le zero xs ys h = refl
take-append_le (suc n) [] ys h = absurd (omega arith)
take-append_le (suc n) (x ∷ xs) ys h = ap (◌∷◌ x) (take-append_le n xs ys (omega arith))

-- Within a buffer the memory behind a pointer is the buffer.
pub bytes_at_lem :
    (buffer : Bytes) (from size : ℕ)
    → from + size ≤ length buffer
    → bytes_at buffer from size ≡ some (take size (drop from buffer))
unfolding bytes_at
bytes_at_lem buffer from size h =
    rw
      (lt_test (from + size) (length (buffer ++ 0 ∷ []))
        (omega (arith, length-append buffer (zero ∷ []))))
      (ap some (
        ap (take size) (drop-append_le from buffer (0 ∷ []) (omega arith))
        ∙ take-append_le size (drop from buffer) (0 ∷ []) (omega (arith, length-drop from buffer))))
  where
    lt_test : (m n : ℕ) → m ≤ n → leb m n ≡ true
    lt_test m n h = ground arith

-- A write that stays within `n` bytes keeps a file within `n` bytes.
pub length-overwrite_le :
    (content buf : Bytes) (offset n : ℕ)
    → length content ≤ n
    → offset + length buf ≤ n
    → length (overwrite content buf offset) ≤ n
unfolding overwrite front
length-overwrite_le content buf offset n h k = omega (
  arith,
  length-front content offset,
  length-append (front content offset) (buf ++ drop (offset + length buf) content),
  length-append buf (drop (offset + length buf) content),
  length-drop (offset + length buf) content,
)

take-take : (m n : ℕ) (xs : Bytes) → m ≤ n → take m (take n xs) ≡ take m xs
take-take zero n xs h = refl
take-take (suc m) zero xs h = absurd (omega arith)
take-take (suc m) (suc n) [] h = refl
take-take (suc m) (suc n) (x ∷ xs) h = ap (◌∷◌ x) (take-take m n xs (omega arith))

drop-drop : (m n : ℕ) (xs : Bytes) → drop n (drop m xs) ≡ drop (m + n) xs
drop-drop zero n xs = let same : n ≡ 0 + n = omega arith in ap (λ k. drop k xs) same
drop-drop (suc m) n [] = drop_all n [] (omega arith) ∙ sym (drop_all (suc m + n) [] (omega arith))
drop-drop (suc m) n (x ∷ xs) =
    let next : suc (m + n) ≡ suc m + n = omega arith in
    drop-drop m n xs ∙ ap (λ k. drop k (x ∷ xs)) next

-- Bytes of the file that lie in front of a write are kept, even where the file ended before it.
pub take-overwrite_le :
    (content buf : Bytes) (offset n : ℕ)
    → n ≤ offset
    → n ≤ length content
    → take n (overwrite content buf offset) ≡ take n content
unfolding overwrite front
take-overwrite_le content buf offset n h k =
    let padded = content ++ replicate (offset - length content) 0 in
    take-append_le n (front content offset) _ (omega (arith, length-front content offset))
    ∙ take-take n offset padded h
    ∙ take-append_le n content _ k

-- Bytes behind a write are kept.
pub drop-overwrite_le :
    (content buf : Bytes) (offset n : ℕ)
    → offset + length buf ≤ n
    → drop n (overwrite content buf offset) ≡ drop n content
drop-overwrite_le content buf offset n h =
    let m = offset + length buf in
    let whole : m + (n - m) ≡ n = omega arith in
    ap (λ k. drop k (overwrite content buf offset)) (sym whole)
    ∙ sym (drop-drop m (n - m) (overwrite content buf offset))
    ∙ ap (drop (n - m)) (drop-overwrite content buf offset)
    ∙ drop-drop m (n - m) content
    ∙ ap (λ k. drop k content) whole

-- A write makes no file shorter, and reaches its own end.
pub length-overwrite_ge :
    (content buf : Bytes) (offset : ℕ)
    → (length content ≤ length (overwrite content buf offset))
      × (offset + length buf ≤ length (overwrite content buf offset))
unfolding overwrite front
length-overwrite_ge content buf offset = omega (
  arith,
  length-front content offset,
  length-append (front content offset) (buf ++ drop (offset + length buf) content),
  length-append buf (drop (offset + length buf) content),
  length-drop (offset + length buf) content,
)
