-- ===== src/Net/Virtqueue/Traffic/Pipe.antt =====
-- What a virtqueue promises: a pool of descriptors that pass from the driver to the device in
-- order, and come back in the order in which the device finished with them.
use aether_webos.Prelude.{ℕ, ◌≡◌, List, [], ◌∷◌, ◌++◌}
use aether_webos.Net.Virtqueue.FreeList.{Held, remove}
use aether_webos.Net.Virtqueue.Traffic.{Event}

pub record Pipe : Type 0 where
  pub free : List ℕ
  pub posted : List ℕ
  pub working : List ℕ
  pub done : List ℕ

pub data Move (a : Pipe) (e : Event) (b : Pipe) : Type 0 where
  post :
      (i : ℕ) (free : List ℕ)
      → a.free ≡ i ∷ free
      → e ≡ Event.post i
      → b ≡ record a { free = free; posted = a.posted ++ i ∷ [] }
      → Move a e b
  take :
      (i : ℕ) (posted : List ℕ)
      → a.posted ≡ i ∷ posted
      → e ≡ Event.take i
      → b ≡ record a { posted = posted; working = i ∷ a.working }
      → Move a e b
  complete :
      (i : ℕ)
      → Held i a.working
      → e ≡ Event.complete i
      → b ≡ record a { working = remove i a.working; done = a.done ++ i ∷ [] }
      → Move a e b
  reclaim :
      (i : ℕ) (done : List ℕ)
      → a.done ≡ i ∷ done
      → e ≡ Event.reclaim i
      → b ≡ record a { free = i ∷ a.free; done = done }
      → Move a e b

pub data Moves : Pipe → List Event → Pipe → Type 0 where
  stop : {a b : Pipe} → b ≡ a → Moves a [] b
  go : {a b c : Pipe} {e : Event} {es : List Event} → Move a e b → Moves b es c → Moves a (e ∷ es) c
