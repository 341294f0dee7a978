-- ===== src/Vendor/Exchanges.antt =====
-- Exchanges as parts of sessions: the controller's replies are replies that the stack may deliver.
use myir_bluetooth.Common.{
  ℕ, zero, suc, ◌+◌, ◌≤◌, ◌<◌, true, none, some, List, [], ◌∷◌, ◌≡◌, refl, arith, Option-cases, inl,
  inr, bind_some,
}
use myir_bluetooth.Config.{Config}
use myir_bluetooth.Ledger.{sends, once_at}
use myir_bluetooth.Link.Peers.{Controller, Exchanged, last_sent, turn, turns}
use myir_bluetooth.Platform.{Env, Trace}
use myir_bluetooth.Vendor.Accounts.{Accounted}
use myir_bluetooth.Vendor.Replies.{Ready, deliver-Accounted}
use myir_bluetooth.Vendor.Sessions.{
  Step, answered, Session, answer, answers, requests, Session-Sound,
}
use myir_bluetooth.World.{World}

last_sent-none : (t : Trace) → last_sent t ≡ none → sends t ≡ 0
last_sent-none [] h = refl
last_sent-none (call ∷ t) h = elim (Option-cases (last_sent t)) [
  | inl nothing ↦ ground (arith, last_sent-none t nothing)
  | inr (newest, at) ↦ ground arith
]

module _ (c : Config) (e : Env) (k : Controller) where
  -- A reply leads to at most one more command.
  turn_one :
      (w : World) {w' : World}
      → Ready w
      → turn c e k w ≡ some w'
      → (sends w'.trace ≤ sends w.trace + 1) × Ready w'
  unfolding turn
  turn_one w {w'} ready h = elim (Option-cases (last_sent w.trace)) [
    | inl nothing ↦ let same : w' ≡ w = ground arith in (ground arith, rw same ready)
    | inr ((opcode, back), at) ↦
        let r : Accounted 0 (once_at (k.reply opcode).addr 0) 0 1 w w' × Ready w' =
          deliver-Accounted c e 0 back (k.reply opcode) w ready (ground arith) in
        (ground arith, r.1)
  ]

  turns_most :
      (n : ℕ) (w : World) {w' : World}
      → Ready w
      → turns c e k n w ≡ some w'
      → sends w'.trace ≤ sends w.trace + n
  unfolding turns
  turns_most zero w ready h = ground arith
  turns_most (suc n) w ready h =
      let (v, first, rest) = bind_some (turn c e k w) _ h in
      let (one, ready') = turn_one w ready first in
      let more = turns_most n v ready' rest in omega arith

  -- Where the session may go on: with replies to commands that were not answered before.
  abbrev pub Continued : List Step → ℕ → World → Type 0
  Continued h n w' =
      (h' : List Step) × Session c e true h' w'
      × (requests h' ≡ requests h)
      × (answers h' ≡ answers h + n)

  turn-Continued :
      (h : List Step) (w : World) {w' : World}
      → Session c e true h w
      → answers h < sends w.trace
      → turn c e k w ≡ some w'
      → Continued h 1 w'
  unfolding turn
  turn-Continued h w session more t = elim (Option-cases (last_sent w.trace)) [
    | inl nothing ↦ absurd (let none_sent = last_sent-none w.trace nothing in omega arith)
    | inr ((opcode, back), at) ↦ (
      answered back ∷ h,
      answer h w _ back (k.reply opcode) session more (ground arith),
      refl,
      omega arith,
    )
  ]

  turns-Continued :
      (n : ℕ) (h : List Step) (w : World) {w' : World}
      → Session c e true h w
      → answers h < sends w.trace
      → turns c e k n w ≡ some w'
      → sends w.trace + n ≤ sends w'.trace
      → Continued h n w'
  unfolding turns
  turns-Continued zero h w {w'} session more ran all =
      let same : w' ≡ w = ground arith in rw same (h, session, refl, omega arith)
  turns-Continued (suc n) h w session more ran all =
      let (v, first, rest) = bind_some (turn c e k w) _ ran in
      let (one, ready) = turn_one w (Session-Sound c e true h w session).ready first in
      let most = turns_most n v ready rest in
      let (h₁, session₁, asked₁, answered₁) = turn-Continued h w session more first in
      let (h₂, session₂, asked₂, answered₂) =
        turns-Continued n h₁ v session₁ (omega arith) rest (omega arith) in
      (h₂, session₂, omega arith, omega arith)

  -- A whole exchange continues a session.
  pub Exchanged-Continued :
      (n : ℕ) (h : List Step) (w : World) {w' : World}
      → Session c e true h w
      → answers h < sends w.trace
      → Exchanged c e k n w w'
      → Continued h (n + 1) w'
  Exchanged-Continued n h w session more x =
      let (h₁, session₁, asked₁, answered₁) =
        turns-Continued n h w session more x.ran (omega (arith, x.sent)) in
      let (h₂, session₂, asked₂, answered₂) =
        turn-Continued h₁ x.before session₁ (omega (arith, x.sent)) x.last in
      (h₂, session₂, omega arith, omega arith)
