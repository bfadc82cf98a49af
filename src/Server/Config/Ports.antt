-- ===== src/Server/Config/Ports.antt =====
-- The ports that `getNextRtpPort` of src/server/rtsp_server.cpp gives.
use rtsp_sdk.Common.{ℕ, zero, suc, ◌+◌, ◌*◌, ◌-◌, ◌/◌, ◌^◌, ◌≤◌, ◌<◌, ◌≡◌, refl, ap, ◌∙◌, arith}
use rtsp_sdk.Server.Config.{get_next_rtp_port, wrap_current, valid_current}

-- In a range of ports of 16 bits with room for a pair, whatever `current` was (short of the
-- largest number), the port and the one
-- behind it lie in the range, and `current` has room for a pair.
pub get_next_rtp_port-inside :
    (current start end : ℕ)
    → current + 1 < 2 ^ 32
    → start + 2 ≤ end
    → end ≤ 2 ^ 16
    → (start ≤ (get_next_rtp_port current start end).0)
      × ((get_next_rtp_port current start end).0 + 1 < end)
      × (start ≤ (get_next_rtp_port current start end).1)
      × ((get_next_rtp_port current start end).1 + 1 < end)
unfolding get_next_rtp_port wrap_current valid_current
get_next_rtp_port-inside current start end h k l = ground arith

-- `current` after a number of calls.
unfoldable pub current_after : ℕ → ℕ → ℕ → ℕ → ℕ
current_after zero current start end = current
current_after (suc k) current start end =
    current_after k (get_next_rtp_port current start end).1 start end

module _ (start end : ℕ) (fits : end ≤ 2 ^ 16) where
  -- A pair of the range that is not the last one, and the last one.
  next-slot : (c : ℕ) → start ≤ c → c + 3 < end → get_next_rtp_port c start end ≡ (c, c + 2)
  unfolding get_next_rtp_port wrap_current valid_current
  next-slot c h k = ground arith

  next-last :
      (c : ℕ) → start ≤ c → c + 1 < end → end ≤ c + 3 → get_next_rtp_port c start end ≡ (c, start)
  unfolding get_next_rtp_port wrap_current valid_current
  next-last c h k l = ground arith

  offered : (c : ℕ) → start ≤ c → c + 1 < end → (get_next_rtp_port c start end).0 ≡ c
  unfolding get_next_rtp_port wrap_current valid_current
  offered c h k = ground arith

  climb : (k c : ℕ) → start ≤ c → c + 2 * k + 1 < end → current_after k c start end ≡ c + 2 * k
  unfolding current_after
  climb zero c h l = omega arith
  climb (suc k) c h l =
      ap (λ x. current_after k x.1 start end) (next-slot c h (omega arith))
      ∙ (climb k (c + 2) (omega arith) (omega arith) ∙ step k c)
    where
      step : (k c : ℕ) → c + 2 + 2 * k ≡ c + 2 * suc k
      step k c = omega arith

  after-add :
      (m k c : ℕ)
      → current_after (m + k) c start end ≡ current_after k (current_after m c start end) start end
  unfolding current_after
  after-add zero k c = let e : zero + k ≡ k = omega arith in rw e refl
  after-add (suc m) k c =
      let e : suc m + k ≡ suc (m + k) = omega arith in
      rw e (after-add m k (get_next_rtp_port c start end).1)

  wrapped :
      (c i : ℕ)
      → start ≤ c
      → c + 1 < end
      → start + 2 * i + 1 < end
      → current_after ((end - c) / 2 - 1 + suc i) c start end ≡ start + 2 * i
  unfolding current_after
  wrapped c i h k l =
      let m = (end - c) / 2 - 1 in
      after-add m (suc i) c
      ∙ (ap (λ x. current_after (suc i) x start end) (climb m c h (omega arith))
          ∙ (ap (λ x. current_after i x.1 start end)
                (next-last (c + 2 * m) (omega arith) (omega arith) (omega arith))
              ∙ climb i start (omega arith) l))

  -- Every pair of ports of the range comes round: from any valid `current`, the port of any pair is
  -- given within as many calls as the range has ports.
  pub every_port_comes :
      (c i : ℕ)
      → start ≤ c
      → c + 1 < end
      → start + 2 * i + 1 < end
      → (k : ℕ) × (k < end - start)
        × ((get_next_rtp_port (current_after k c start end) start end).0 ≡ start + 2 * i)
  every_port_comes c i h k l = (
    (end - c) / 2 - 1 + suc i,
    omega arith,
    ap (λ x. (get_next_rtp_port x start end).0) (wrapped c i h k l)
        ∙ offered (start + 2 * i) (omega arith) l,
  )
