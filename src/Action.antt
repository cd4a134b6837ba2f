-- ===== src/Action.antt =====
-- Handlers that change a state and can fail: what was written stays written after an error.
use hotaru_mqtt.Base.{Outcome, ok, err, panic}
use hotaru_mqtt.Error.{MqttError}

abbrev pub Action : Type 0 → Type 0 → Type 0
Action S A = S → S × Outcome MqttError A

module _ {S : Type 0} where
  abbrev pub pure : {A : Type 0} → A → Action S A
  pure a s = (s, ok a)

  abbrev pub fail : {A : Type 0} → MqttError → Action S A
  fail e s = (s, err e)

  abbrev pub modify : (S → S) → Action S (Unit {0})
  modify f s = (f s, ok tt)

  -- What follows a step, by what the step returned.
  abbrev pub and_then :
      {A B : Type 0} → S × Outcome MqttError A → (A → Action S B) → S × Outcome MqttError B
  and_then (s, ok a) f = f a s
  and_then (s, err e) f = (s, err e)
  and_then (s, panic) f = (s, panic)

infixl 5 ◌>>=◌ ◌>>◌
abbrev pub ◌>>=◌ : {S A B : Type 0} → Action S A → (A → Action S B) → Action S B
◌>>=◌ m f s = and_then (m s) f

abbrev pub ◌>>◌ : {S B : Type 0} → Action S (Unit {0}) → Action S B → Action S B
m >> k = m >>= λ _. k

-- `tokio::time::timeout`: the future's value, unless the time is up first.
pub data Timed (A : Type 0) : Type 0 where
  elapsed : Timed A
  finished : A → Timed A
