-- ===== src/WebSocket/Mask.antt =====
-- Masking with the same key twice gives the payload back.
use libnetq.Prelude.{ℕ, ◌+◌, ◌%◌, ◌≡◌, refl, ap, List, [], ◌∷◌, length, suc}
use libnetq.Prelude.Bits.{bit_xor_twice}
use libnetq.WebSocket.{UnmaskPayload, unmask, unmask_init, payload_unmask}

unmask_twice : (u : UnmaskPayload) (xs : List ℕ) → (unmask u (unmask u xs).1).1 ≡ xs
unfolding unmask
unmask_twice u [] = refl
unmask_twice u (x ∷ xs) =
    simp (bit_xor_twice, unmask_twice (record u { position = (u.position + 1) % 256 }) xs)

pub length-unmask : (u : UnmaskPayload) (xs : List ℕ) → length (unmask u xs).1 ≡ length xs
unfolding unmask
length-unmask u [] = refl
length-unmask u (x ∷ xs) =
    ap suc (length-unmask (record u { position = (u.position + 1) % 256 }) xs)

-- `NQWebSocketFramePayloadUnmask` undoes itself: with the same key it masks and unmasks a payload of
-- any length, and it keeps the length.
pub payload_unmask_twice :
    (mask payload : List ℕ)
    → (payload_unmask mask (payload_unmask mask payload) ≡ payload)
      × (length (payload_unmask mask payload) ≡ length payload)
unfolding payload_unmask
payload_unmask_twice mask payload =
    (unmask_twice (unmask_init mask) payload, length-unmask (unmask_init mask) payload)
