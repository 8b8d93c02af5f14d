-- ===== src/Config/Durations.antt =====
-- The authorization timeout of an accepted configuration, as `New` (internal/service/service.go) takes
-- it over and as the service hands it to the ledger: internal/config/config.go and
-- internal/service/service.go.
use ledger_service.Prelude.{ℕ, ◌+◌, ◌-◌, ◌*◌, ◌/◌, ◌^◌, ◌<◌, ◌≡◌, ap, ◌∙◌, arith}
use ledger_service.Prelude.Int.{ℤ, pos, negsuc, ◌≤ℤ◌}
use ledger_service.Clock.{second, round_up_seconds, whole_seconds}
use ledger_service.Config.{Platform, Config, loaded, load}
use ledger_service.Config.Accepted.{load-IsAccepted}
use ledger_service.Service.Start.{round_up_seconds-bounds}

-- a timeout of `k` seconds, the least that is no shorter than `d`, in a 32-bit field
abbrev pub IsTimeout : ℤ → ℕ → Type 0
IsTimeout d k =
    (round_up_seconds d ≡ pos (k * second))
    × (whole_seconds (round_up_seconds d) ≡ k)
    × (0 < k)
    × (k < 2 ^ 32)
    × (d ≤ℤ pos (k * second))
    × (pos ((k - 1) * second + 1) ≤ℤ d)

whole_seconds-pos : (k : ℕ) → k < 2 ^ 32 → whole_seconds (pos (k * second)) ≡ k
whole_seconds-pos k small = omega arith

round_up_seconds-IsTimeout :
    (d : ℤ) → pos second ≤ℤ d → d ≤ℤ pos ((2 ^ 32 - 1) * second) → (k : ℕ) × IsTimeout d k
round_up_seconds-IsTimeout (negsuc n) low high = absurd (omega arith)
round_up_seconds-IsTimeout (pos n) low high =
    let (r, same, least, most, whole) = round_up_seconds-bounds n (omega arith) (omega arith) in
    let k : ℕ = r / second in
    let eq : r ≡ k * second = omega arith in
    let small : k < 2 ^ 32 = omega arith in
    let rounded = same ∙ ap pos eq in
    (
      k,
      (
        rounded,
        ap whole_seconds rounded ∙ whole_seconds-pos k small,
        omega arith,
        small,
        omega arith,
        omega arith,
      ),
    )

-- The authorization timeout of a configuration that `Load` returns is rounded up to a whole number of
-- seconds without wrapping, at most a second more, and the ledger's 32-bit timeout is that number,
-- which is not 0.
pub load-round_up_seconds :
    (p : Platform) (c : Config) → load p ≡ loaded c → (k : ℕ) × IsTimeout c.authorization_timeout k
load-round_up_seconds p c h =
    let (low, high) = (load-IsAccepted p c h).timeout_between in
    round_up_seconds-IsTimeout c.authorization_timeout low high
