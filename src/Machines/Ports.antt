-- ===== src/Machines/Ports.antt =====
-- The attempts of getAvailablePort.
use page_spy_api.Base.{ℕ, zero, suc, ◌+◌, Bool, if◌then◌else◌, ◌≡◌, ◌∙◌, refl, inl, inr, Bool-cases}
use page_spy_api.Base.Number.{decimal}
use page_spy_api.Failure.{ok, err, text}
use page_spy_api.Machines.{get_available_port}

-- Attempts within one second all draw the same port: together they find a port exactly if the first
-- of them does, and the port is the one that it drew.
pub get_available_port-same_second :
    (draw : ℕ → ℕ) (free : ℕ → Bool) (second : ℕ → ℕ) (now limit : ℕ)
    → ((n : ℕ) → second n ≡ now)
    → get_available_port draw free second (suc limit) ≡ (
        if free (draw now + 1024)
        then ok (decimal (draw now + 1024))
        else err (text "get available port try times than limit"))
unfolding get_available_port
get_available_port-same_second draw free second now zero h = rw (h (suc zero)) refl
get_available_port-same_second draw free second now (suc limit) h =
    elim (Bool-cases (free (draw now + 1024))) [
      | inl e ↦ rw (h (suc (suc limit)), e) refl
      | inr e ↦
          rw (h (suc (suc limit)), e)
            (get_available_port-same_second draw free second now limit h ∙ rw e refl)
    ]
