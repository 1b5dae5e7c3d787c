-- ===== src/Buffer/Fifo.antt =====
-- The buffer of src/buffer.cpp as a queue of bytes.
use greensql_fw.Base.{
  ℕ, zero, suc, false, Bytes, [], ◌∷◌, ◌++◌, length, take, ◌≡◌, refl, arith, take-append-drop, sym,
  append-nil,
}
use greensql_fw.Buffer.{append, chop_back, pop}

pub take_all : (s : Bytes) → take (length s) s ≡ s
take_all [] = refl
take_all (c ∷ s) = rw (take_all s)

pub append-length : (buff bytes : Bytes) → append buff bytes (length bytes) ≡ buff ++ bytes
unfolding append
append-length buff [] = sym (append-nil buff)
append-length buff (c ∷ bytes) = ground (arith, take_all bytes)

-- What pop takes from a buffer and what it leaves are the buffer, and chop_back leaves the same.
pub pop-split :
    (buff res : Bytes) (size : ℕ)
    → ((pop buff res size false).0 ++ (pop buff res size false).1 ≡ buff)
      × (chop_back buff size ≡ (pop buff res size false).1)
unfolding pop chop_back
pop-split buff res zero = (refl, refl)
pop-split buff res (suc size) = (take-append-drop (suc size) buff, ground arith)
