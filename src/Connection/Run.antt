-- ===== src/Connection/Run.antt =====
-- How a call of parseRequest or parseResponse ends (src/connection.hpp).
use greensql_fw.Base.{Option, none, some, ◌≡◌, refl, arith}

-- How a call ends: with a result, with `false`, on which the connection is closed, in undefined
-- behaviour, or not within the rounds that the model gives it.
pub data Run (A : Type 0) : Type 0 where
  done : A → Run A
  closes undefined endless : Run A

abbrev pub then_run : {A B : Type 0} → Run A → (A → Run B) → Run B
then_run (done a) f = f a
then_run closes f = closes
then_run undefined f = undefined
then_run endless f = endless

-- A null pointer or a read behind the buffer is undefined behaviour.
abbrev pub of_option : {A : Type 0} → Option A → Run A
of_option none = undefined
of_option (some a) = done a

pub run-done :
    {A B : Type 0} (r : Run A) (f : A → Run B) (b : B)
    → then_run r f ≡ done b
    → (a : A) × (r ≡ done a) × (f a ≡ done b)
run-done (done a) f b h = (a, refl, h)
run-done closes f b h = absurd (ground arith)
run-done undefined f b h = absurd (ground arith)
run-done endless f b h = absurd (ground arith)

pub run-ext :
    {A B : Type 0} (r : Run A) (f g : A → Run B)
    → ((a : A) → f a ≡ g a)
    → then_run r f ≡ then_run r g
run-ext (done a) f g h = h a
run-ext closes f g h = refl
run-ext undefined f g h = refl
run-ext endless f g h = refl

pub done-eq : {A : Type 0} {a b : A} → Run.done a ≡ done b → a ≡ b
done-eq h = cc
