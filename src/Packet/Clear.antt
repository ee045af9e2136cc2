-- ===== src/Packet/Clear.antt =====
-- Packets before the keys are in place.
use warptweet.Prelude.{
  ℕ, ◌≡◌, ◌++◌, Bytes, length, ok, arith, length-append, take-append, drop-append, length-take,
  take-append-drop,
}
use warptweet.Packet.{read_full}

pub read_full-append :
    (n : ℕ) (xs ys : Bytes) → n ≡ length xs → read_full n (xs ++ ys) ≡ ok (xs, ys)
unfolding read_full
read_full-append n xs ys h =
    ground (arith, length-append xs ys, take-append n xs ys h, drop-append n xs ys h)

pub read_full_split :
    (n : ℕ) (stream : Bytes) {taken left : Bytes}
    → read_full n stream ≡ ok (taken, left)
    → (stream ≡ taken ++ left) × (length taken ≡ n)
unfolding read_full
read_full_split n stream e = ground (arith, take-append-drop n stream, length-take n stream)
