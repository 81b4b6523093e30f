-- ===== src/External/Semaphore.antt =====
-- `tokio::sync::Semaphore`, which is never closed here: the count of free permits, `add_permits`
-- (also what the drop of a permit does) and `try_acquire`, whose permit the caller keeps or forgets.
use service_daemon_rs.Prelude.{ℕ, zero, suc, ◌+◌, ◌<◌, ◌≡◌, refl, Option, none, some, arith}

pub record Semaphore : Type 1 where
  pub Sem : Type 0
  pub available_permits : Sem → ℕ
  pub add_permits : Sem → ℕ → Sem
  pub try_acquire : Sem → Option Sem

module _ (S : Semaphore) where
  open S use {Sem, available_permits, add_permits, try_acquire}

  pub record Laws : Type 0 where
    pub available-add :
        (s : Sem) (n : ℕ) → available_permits (add_permits s n) ≡ available_permits s + n
    pub acquire_none : (s : Sem) → available_permits s ≡ 0 → try_acquire s ≡ none
    pub acquire_some :
        (s : Sem)
        → 0 < available_permits s
        → (t : Sem) × (try_acquire s ≡ some t) × (available_permits s ≡ suc (available_permits t))

  -- What a call of `try_acquire` can do, as one statement to split on.
  pub data Acquires (s : Sem) : Type 0 where
    refused : available_permits s ≡ 0 → try_acquire s ≡ none → Acquires s
    granted :
        (t : Sem)
        → try_acquire s ≡ some t
        → available_permits s ≡ suc (available_permits t)
        → Acquires s

  pub acquires : Laws → (s : Sem) → Acquires s
  acquires L s = go (available_permits s) refl
    where
      go : (n : ℕ) → available_permits s ≡ n → Acquires s
      go zero e = refused e (L.acquire_none s e)
      go (suc n) e = let (t, got, count) = L.acquire_some s (omega arith) in granted t got count
