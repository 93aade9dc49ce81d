-- ===== src/UdpTarget/Stopped.antt =====
-- Targets that are stopped, and targets that others are started beside.
use kamal_proxy.Base.{
  ℕ, ◌<◌, ◌≡◌, refl, ◌∙◌, inl, inr, ◌⊎◌, String, true, false, List, [], ◌∷◌, arith, Elem,
}
use kamal_proxy.UdpTarget.{
  UdpTargets, UdpError, Net, Result, ok, err, new_udp_target, start_target, start_each, stop_target,
  stop_targets, forward_packet, no_connection,
}

pub result_cases {ℓ} :
    {A : Type ℓ} (x : Result A) → ((a : A) × (x ≡ ok a)) ⊎ ((e : UdpError) × (x ≡ err e))
result_cases (ok a) = inl (a, refl)
result_cases (err e) = inr (e, refl)

pub stop_targets-target : (ts : List ℕ) (w : UdpTargets) → (stop_targets ts w).target ≡ w.target
unfolding stop_targets stop_target
stop_targets-target [] w = refl
stop_targets-target (a ∷ ts) w = stop_targets-target ts (stop_target a w)

module _ (t : ℕ) where
  stop_targets-kept :
      (ts : List ℕ) (w : UdpTargets)
      → w.connected t ≡ false
      → (stop_targets ts w).connected t ≡ false
  unfolding stop_targets stop_target
  stop_targets-kept [] w h = h
  stop_targets-kept (a ∷ ts) w h = stop_targets-kept ts (stop_target a w) (ground arith)

  pub stop_targets-stopped :
      (ts : List ℕ) (w : UdpTargets) → Elem t ts → (stop_targets ts w).connected t ≡ false
  unfolding stop_targets stop_target
  stop_targets-stopped [] w i = absurd i
  stop_targets-stopped (a ∷ ts) w i = elim i [
    | inl e ↦ stop_targets-kept ts (stop_target a w) (ground arith)
    | inr j ↦ stop_targets-stopped ts (stop_target a w) j
  ]

  new-old :
      (net : Net) (url : String) (w : UdpTargets)
      → t < w.next_address
      → ((new_udp_target net url w).0.target t ≡ w.target t)
        × (t < (new_udp_target net url w).0.next_address)
  unfolding new_udp_target
  new-old net url w h = (ground arith, ground arith)

  start-old :
      (net : Net) (a : ℕ) (w : UdpTargets)
      → ((start_target net a w).0.target ≡ w.target)
        × ((start_target net a w).0.next_address ≡ w.next_address)
  unfolding start_target
  start-old net a w = ground arith

  pub start_each-old :
      (net : Net) (urls : List String) (w : UdpTargets)
      → t < w.next_address
      → (start_each net urls w).0.target t ≡ w.target t
  unfolding start_each
  start_each-old net [] w h = refl
  start_each-old net (url ∷ urls) w h =
      let a = w.next_address in
      let w₁ = (new_udp_target net url w).0 in
      let w₂ = (start_target net a w₁).0 in
      let (same, below) = new-old net url w h in
      let (same', next) = start-old net a w₁ in
      let same₂ : w₂.target t ≡ w.target t = rw same' same in
      let ih = start_each-old net urls w₂ (rw next below) in
      elim (result_cases (new_udp_target net url w).1) [
        | inr (_, e) ↦ rw (e, start_each) same
        | inl (_, e) ↦ elim (result_cases (start_target net a w₁).1) [
          | inr (_, f) ↦ rw (e, f, start_each) same₂
          | inl (_, f) ↦ elim (result_cases (start_each net urls w₂).1) [
            | inr (_, g) ↦ rw (e, f, g, start_each) (ih ∙ same₂)
            | inl (_, g) ↦ rw (e, f, g, start_each) (ih ∙ same₂)
          ]
        ]
      ]

  pub forward_packet-stopped :
      (net : Net) (w : UdpTargets)
      → (w.target t).healthy ≡ true
      → w.connected t ≡ false
      → forward_packet net t w ≡ no_connection
  unfolding forward_packet
  forward_packet-stopped net w h c = rw (h, c) refl
