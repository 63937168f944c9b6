-- ===== src/Transport/Shm/Refs.antt =====
-- The references that SHM_REF frames carry.
use ohmcp.Base.{arith, List, some, none, ◌≢◌, refl, ◌≡◌, ◌<◌, ◌^◌, ℕ, length}
use ohmcp.Transport.Shm.{encode_shm_ref, decode_shm_ref}

-- A reference is twelve bytes, and is read back as it was written.
pub decode_shm_ref-encode_shm_ref :
    (offset len : ℕ)
    → offset < 2 ^ 64
    → len < 2 ^ 32
    → (length (encode_shm_ref offset len) ≡ 12)
      × (decode_shm_ref (encode_shm_ref offset len) ≡ some (offset, len))
unfolding encode_shm_ref decode_shm_ref
decode_shm_ref-encode_shm_ref offset len h k = (refl, ground arith)

-- A payload of any other length is no reference.
pub decode_shm_ref_wrong_length : (p : List ℕ) → length p ≢ 12 → decode_shm_ref p ≡ none
unfolding decode_shm_ref
decode_shm_ref_wrong_length p h = ground arith
