-- ===== src/Telegram/Content.antt =====
-- `from_bytes` decides by the first '!' and the bytes behind it.
use arduino_dsmr.Base.{
  ◌+◌, ◌↔◌, Bool, true, false, [], ◌∷◌, ◌++◌, Option, none, some, ◌≡◌, sym, ap, ◌∙◌, inl, inr,
  arith, Bytes, length, take, drop, find, find-append, find_split, Lacks, length-append,
  take-append, take-append_add, drop-append, Option-cases, append_assoc, leb, if◌then◌else◌, ◌==◌,
}
use arduino_dsmr.Crc.{calculate_crc16, to_crc}
use arduino_dsmr.Telegram.{DsmrUnencryptedTelegram, from_end, from_bytes}

-- A telegram as the protocol frames it: '/', a body, and '!'.
abbrev pub framed : Bytes → Bytes
framed body = b'/' ∷ (body ++ b'!' ∷ [])

abbrev pub with_suffix : Bytes → Bytes → DsmrUnencryptedTelegram
with_suffix body crc = record { view = framed body ++ crc; has_crc_suffix = true }

abbrev pub without_suffix : Bytes → DsmrUnencryptedTelegram
without_suffix body = record { view = framed body; has_crc_suffix = false }

pub length-framed : (body : Bytes) → length (framed body) ≡ length body + 2
length-framed body = omega (arith, length-append body (b'!' ∷ []))

length-front : (body : Bytes) → length (b'/' ∷ body) ≡ length body + 1
length-front body = omega arith

find-framed :
    (body tail : Bytes) → Lacks b'!' body → find b'!' (framed body ++ tail) ≡ some (length body + 1)
find-framed body tail h =
    ap (find b'!') (append_assoc (b'/' ∷ body) (b'!' ∷ []) tail)
    ∙ find-append b'!' (b'/' ∷ body) tail (omega arith, h)
    ∙ ap some (length-front body)

-- The telegram that a framed body with these bytes behind it makes, if any.
abbrev pub accepted : Bytes → Bytes → Bool → Option DsmrUnencryptedTelegram
accepted body tail false =
    if leb 4 (length tail)
    then some (with_suffix body (take 4 tail))
    else some (without_suffix body)
accepted body tail true =
    if leb 4 (length tail)
    then elim (to_crc (take 4 tail)) [
      | none ↦ none
      | some crc ↦
          if calculate_crc16 (framed body) == crc
          then some (with_suffix body (take 4 tail))
          else none
    ]
    else none

module _ (body tail : Bytes) where
  take-framed : take (length body + 1 + 1) (framed body ++ tail) ≡ framed body
  take-framed =
      take-append (length body + 1 + 1) (framed body) tail (omega (arith, length-framed body))

  drop-framed : drop (length body + 1 + 1) (framed body ++ tail) ≡ tail
  drop-framed =
      drop-append (length body + 1 + 1) (framed body) tail (omega (arith, length-framed body))

  take_suffix : take (length body + 1 + 5) (framed body ++ tail) ≡ framed body ++ take 4 tail
  take_suffix =
      take-append_add (framed body) tail (length body + 1 + 5) 4 (omega (arith, length-framed body))

  length-framed_append : length (framed body ++ tail) ≡ length body + 2 + length tail
  length-framed_append = omega (arith, length-framed body, length-append (framed body) tail)

  from_end-framed :
      (chk : Bool) → from_end (framed body ++ tail) chk (length body + 1) ≡ accepted body tail chk
  unfolding from_end
  from_end-framed true = ground (arith, take-framed, drop-framed, take_suffix, length-framed_append)
  from_end-framed false = ground (arith, take-framed, take_suffix, length-framed_append)

-- `from_bytes` on a framed body with any bytes behind it.
pub from_bytes-framed :
    (body tail : Bytes) (chk : Bool)
    → Lacks b'!' body
    → from_bytes (framed body ++ tail) chk ≡ accepted body tail chk
unfolding from_bytes
from_bytes-framed body tail chk h = rw (find-framed body tail h) (from_end-framed body tail chk)

-- How an input splits whose first byte is '/' and that holds a '!'.
pub record IsFramed (xs body tail : Bytes) : Type 0 where
  pub splits : xs ≡ framed body ++ tail
  pub no_end : Lacks b'!' body

from_bytes-IsFramed :
    (xs : Bytes) (chk : Bool) {t : DsmrUnencryptedTelegram}
    → from_bytes xs chk ≡ some t
    → (body : Bytes) × (tail : Bytes) × IsFramed xs body tail
unfolding from_bytes
from_bytes-IsFramed [] chk h = absurd (cc)
from_bytes-IsFramed (x ∷ xs) chk h = elim (Option-cases (find b'!' (x ∷ xs))) [
  | inl e ↦ absurd (ground arith)
  | inr (n, e) ↦
      let (pre, post, splits, _, lacks) = find_split b'!' (x ∷ xs) e in
      inner pre post splits lacks (ground arith)
]
  where
    inner :
        (pre post : Bytes)
        → x ∷ xs ≡ pre ++ b'!' ∷ post
        → Lacks b'!' pre
        → x ≡ b'/'
        → (body : Bytes) × (tail : Bytes) × IsFramed (x ∷ xs) body tail
    inner [] post e l s = absurd (ground arith)
    inner (y ∷ pre) post e l s = (
      pre,
      post,
      record {
        splits =
            e
            ∙ (ap (λ z. z ∷ (pre ++ b'!' ∷ post)) (ground arith))
            ∙ sym (append_assoc (b'/' ∷ pre) (b'!' ∷ []) post);
        no_end = l.1;
      },
    )

-- `from_bytes` returns `t` exactly when the input is '/', a body with no '!', '!' and some
-- bytes that `accepted` makes `t` of.
pub from_bytes_iff :
    (xs : Bytes) (chk : Bool) (t : DsmrUnencryptedTelegram)
    → (from_bytes xs chk ≡ some t) ↔ (
        (body : Bytes) × (tail : Bytes) × IsFramed xs body tail × (accepted body tail chk ≡ some t))
from_bytes_iff xs chk t = (there, back)
  where
    there :
        from_bytes xs chk ≡ some t
        → (body : Bytes) × (tail : Bytes) × IsFramed xs body tail
          × (accepted body tail chk ≡ some t)
    there h =
        let (body, tail, f) = from_bytes-IsFramed xs chk h in
        (
          body,
          tail,
          f,
          sym (from_bytes-framed body tail chk f.no_end)
              ∙ ap (λ ys. from_bytes ys chk) (sym f.splits)
              ∙ h,
        )

    back :
        (body : Bytes) × (tail : Bytes) × IsFramed xs body tail × (accepted body tail chk ≡ some t)
        → from_bytes xs chk ≡ some t
    back (body, tail, f, e) =
        ap (λ ys. from_bytes ys chk) f.splits ∙ from_bytes-framed body tail chk f.no_end ∙ e
