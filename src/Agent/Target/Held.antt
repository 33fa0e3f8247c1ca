-- ===== src/Agent/Target/Held.antt =====
-- go-agent/main.go: the frame handler of a destination holds what it takes.
use mycedrive_k8s.Base.{
  ℕ, Bool, true, false, Option, none, some, List, [], ◌∷◌, ◌++◌, ◌≡◌, refl, ap, if◌then◌else◌, eqb,
  arith, pos_part, All, Bool-cases, inl, inr,
}
use mycedrive_k8s.Base.Action.{attempt, zoom}
use mycedrive_k8s.Base.Triple.{IsGood}
use mycedrive_k8s.Base.Invariant.{Invariant, zoom-Invariant}
use mycedrive_k8s.Transfer.{Bytes, FrameHeader, kind_layer, kind_checkpoint_file}
use mycedrive_k8s.Transfer.Exchange.{Outcome, complete, failed}
use mycedrive_k8s.Transfer.Exchange.Session.{Item, normalised, replay, after_item}
use mycedrive_k8s.Overlay.State.{lower, Manager, Vol}
use mycedrive_k8s.Overlay.{receive_checkpoint}
use mycedrive_k8s.Overlay.Received.{HasDir, receive_checkpoint_keeps, receive_checkpoint-Triple}
use mycedrive_k8s.Dmtcp.States.{Dmtcp}
use mycedrive_k8s.Agent.Target.{
  Target, Site, put_manager, put_process, in_volume, in_dmtcp, reported, on_frame,
}

-- The directory of a received layer is there, and a received checkpoint file was extracted.
abbrev pub IsHeld : FrameHeader → Bytes → Target → Type 0
IsHeld h payload t =
    (eqb h.kind kind_layer ≡ true → HasDir lower (pos_part h.ordinal) t.manager)
    × (eqb h.kind kind_checkpoint_file ≡ true
        → (before : List Bytes) × (after : List Bytes) × (t.files ≡ before ++ payload ∷ after))

-- Everything that was sent is held.
abbrev pub HoldsAll : List Item → Target → Type 0
HoldsAll items t = All (λ item. IsHeld (normalised item.header) item.payload t) items

reported_1 {ℓ} :
    {A : Type ℓ} (P : Target → Type 0) (got : Option A × Target) → P got.1 → P (reported got).1
reported_1 P (none, t) p = p
reported_1 P (some a, t) p = p

module _ (h : FrameHeader) (payload : Bytes) where
  pub volume_keeps {ℓ} :
      {A : Type ℓ} (v : Vol A)
      → Invariant (HasDir lower (pos_part h.ordinal)) v
      → Invariant (IsHeld h payload) (in_volume v)
  unfolding zoom
  volume_keeps v keeps t (layer, file) = ((λ e. keeps t.manager (layer e)), file)

  dmtcp_keeps {ℓ} : {A : Type ℓ} (v : Dmtcp A) → Invariant (IsHeld h payload) (in_dmtcp v)
  dmtcp_keeps v =
      zoom-Invariant (IsHeld h payload) (λ t. t.process) put_process (λ t. v) (λ p t held. held)

  pub attempt_keeps :
      {A : Type 0} (v : Dmtcp A) → Invariant (IsHeld h payload) (attempt (in_dmtcp v))
  unfolding attempt
  attempt_keeps v = dmtcp_keeps v

module _ (site : Site) where
  -- A later frame takes nothing away.
  on_frame_keeps :
      (h : FrameHeader) (payload : Bytes) (h' : FrameHeader) (payload' : Bytes) (t : Target)
      → IsHeld h payload t
      → IsHeld h payload (on_frame site h' payload' t).1
  unfolding on_frame
  on_frame_keeps h payload h' payload' t (layer, file) =
      elim (Bool-cases (eqb h'.kind kind_layer)) [
        | inl is ↦ rw is (
            reported_1 (IsHeld h payload) _ (
              volume_keeps h payload _
                (receive_checkpoint_keeps (site.layer payload') lower (pos_part h.ordinal)
                  (pos_part h'.ordinal))
                _ (layer, file)))
        | inr other ↦ elim (Bool-cases (eqb h'.kind kind_checkpoint_file)) [
          | inl is ↦
              rw (other, is)
                (elim (Bool-cases (site.extracts t.files payload')) [
                  | inl good ↦ rw good (
                    layer,
                    λ e.
                        let (before, after, same) = file e in
                        (payload' ∷ before, after, ap (λ fs. payload' ∷ fs) same),
                  )
                  | inr bad ↦ rw bad (layer, file)
                ])
          | inr neither ↦ rw (other, neither) (layer, file)
        ]
      ]

  layer-IsHeld :
      (h : FrameHeader) (payload : Bytes) (got : Option (Unit {0}) × Target)
      → eqb h.kind kind_layer ≡ true
      → IsGood (λ a t. HasDir lower (pos_part h.ordinal) t.manager) got.0 got.1
      → (reported got).0 ≡ true
      → IsHeld h payload (reported got).1
  layer-IsHeld h payload (none, t) is good e = absurd (ground (arith, e))
  layer-IsHeld h payload (some a, t) is good e =
      ((λ l. good), λ file. absurd (ground (arith, is, file)))

  received-IsGood :
      (payload : Bytes) (n : ℕ) (t : Target)
      → let got = in_volume (receive_checkpoint (site.layer payload) n) t in
        IsGood (λ a t. HasDir lower n t.manager) got.0 got.1
  unfolding zoom
  received-IsGood payload n t =
      go (receive_checkpoint (site.layer payload) n t.manager)
        (receive_checkpoint-Triple (site.layer payload) n t.manager tt)
    where
      go :
          (got : Option (Unit {0}) × Manager)
          → IsGood (λ a. HasDir lower n) got.0 got.1
          → IsGood (λ a t. HasDir lower n t.manager) got.0 (put_manager got.1 t)
      go (none, m) good = tt
      go (some a, m) good = good

  if-IsHeld :
      (h : FrameHeader) (payload : Bytes) (b : Bool) (x y : Bool × Target)
      → (b ≡ true → x.0 ≡ true → IsHeld h payload x.1)
      → (b ≡ false → y.0 ≡ true → IsHeld h payload y.1)
      → let got = if b then x else y in got.0 ≡ true → IsHeld h payload got.1
  if-IsHeld h payload true x y f g = f refl
  if-IsHeld h payload false x y f g = g refl

  -- A frame that the handler takes is held.
  on_frame_holds :
      (h : FrameHeader) (payload : Bytes) (t : Target)
      → (on_frame site h payload t).0 ≡ true
      → IsHeld h payload (on_frame site h payload t).1
  unfolding on_frame
  on_frame_holds h payload t =
      if-IsHeld h payload (eqb h.kind kind_layer) _ _
        (λ is.
          layer-IsHeld h payload _ is
            (received-IsGood payload (pos_part h.ordinal) (record t { layers = ℕ.suc t.layers })))
        λ other.
          if-IsHeld h payload (eqb h.kind kind_checkpoint_file) _ _
            (λ is.
              if-IsHeld h payload (site.extracts t.files payload) _ _
                (λ good e. ((λ l. absurd (ground (arith, other, l))), λ file. ([], t.files, refl)))
                λ bad e. absurd (ground (arith, e)))
            λ neither e. absurd (ground (arith, e))

  abbrev pub is_complete : Outcome → Bool
  is_complete (complete headers) = true
  is_complete (failed headers) = false

  after_item_keeps :
      (P : Target → Type 0) (next : List FrameHeader → Target → Outcome × Target)
      (headers : List FrameHeader) (h : FrameHeader) (got : Bool × Target)
      → ((hs : List FrameHeader) (t : Target) → P t → P (next hs t).1)
      → P got.1
      → P (after_item (on_frame site) next headers h got).1
  after_item_keeps P next headers h (true, t) later p = later _ t p
  after_item_keeps P next headers h (false, t) later p = p

  replay_keeps :
      (P : Target → Type 0)
      → ((h : FrameHeader) (payload : Bytes) (t : Target) → P t → P (on_frame site h payload t).1)
      → (items : List Item) (headers : List FrameHeader) (t : Target) → P t
      → P (replay (on_frame site) items headers t).1
  unfolding replay
  replay_keeps P keeps [] headers t p = p
  replay_keeps P keeps (item ∷ items) headers t p =
      after_item_keeps P (replay (on_frame site) items) headers (normalised item.header)
        (on_frame site (normalised item.header) item.payload t) (replay_keeps P keeps items)
        (keeps (normalised item.header) item.payload t p)

  holds_more :
      (item : Item) (items : List Item) (headers : List FrameHeader) (got : Bool × Target)
      → (got.0 ≡ true → IsHeld (normalised item.header) item.payload got.1)
      → ((hs : List FrameHeader) (t : Target)
          → is_complete (replay (on_frame site) items hs t).0 ≡ true
          → HoldsAll items (replay (on_frame site) items hs t).1)
      → let result =
          after_item
            (on_frame site)
            (replay (on_frame site) items)
            headers
            (normalised item.header)
            got in
        is_complete result.0 ≡ true → HoldsAll (item ∷ items) result.1
  holds_more item items headers (true, t) held later e = (
    replay_keeps (IsHeld (normalised item.header) item.payload)
        (λ h p t'. on_frame_keeps (normalised item.header) item.payload h p t') items _ t
        (held refl),
    later _ t e,
  )
  holds_more item items headers (false, t) held later e = absurd (ground (arith, e))

  pub replay_holds :
      (items : List Item) (headers : List FrameHeader) (t : Target)
      → is_complete (replay (on_frame site) items headers t).0 ≡ true
      → HoldsAll items (replay (on_frame site) items headers t).1
  unfolding replay
  replay_holds [] headers t = λ e. tt
  replay_holds (item ∷ items) headers t =
      holds_more item items headers (on_frame site (normalised item.header) item.payload t)
        (on_frame_holds (normalised item.header) item.payload t) (replay_holds items)
