-- ===== src/Usb/Opening/Claims.antt =====
-- The claim of the interface over the life of a session: crates/handycam-libusb/src/transport.rs.
use handycam_rs.Usb.{Usb}
use handycam_rs.Usb.Devices.{video_interface}
use handycam_rs.Usb.Transfers.{TransferSlot, Callback, run_callbacks}
use handycam_rs.Usb.Session.{Submitted, names_slot}
use handycam_rs.Usb.Opening.{
  Host, UsbSession, Allocated, cancel_all, stop, Waits, Opened, session_ready, refused, dropping,
}
use handycam_rs.Usb.Opening.Keeping.{IsClaim}
use handycam_rs.Usb.Opening.Reaping.{concat}
use handycam_rs.Prelude.{
  ℕ, ◌≡◌, refl, ◌∙◌, ◌⊎◌, inl, inr, true, false, Option, none, some, List, [], ◌∷◌, Bool-cases,
  length, get_elem?, any, All, ok, err,
}

-- libusb calls back once for each transfer in flight: a wait brings a callback of every slot that
-- is submitted when it begins.
abbrev pub IsReaping : Waits → Type 0
IsReaping waits =
    (slots : List TransferSlot) (i : ℕ) (slot : TransferSlot)
    → get_elem? slots i ≡ some slot
    → slot.submitted ≡ true
    → any (names_slot i) (concat (waits slots)) ≡ true

module _ (lib : Usb) (host : Host lib) (claim : IsClaim lib host) where
  open claim use {claimed}

  abbrev Holds : UsbSession lib → Type 0
  Holds session = claimed session.handle ≡ true × session.stopped ≡ false

  -- So many slots are in flight, or an error came before.
  abbrev IsFilled : ℕ → Allocated lib host → Type 0
  IsFilled count (session, ok done) =
      Holds session
      × (length session.transfers.slots ≡ count × All Submitted session.transfers.slots)
  IsFilled count (session, err error) = Holds session

  cancel_all-claimed :
      (slots : List TransferSlot) (h : lib.Handle)
      → claimed (cancel_all lib host slots h) ≡ claimed h
  unfolding cancel_all
  cancel_all-claimed [] h = refl
  cancel_all-claimed (slot ∷ slots) h = elim (Bool-cases slot.submitted) [
    | inl e ↦ rw e (cancel_all-claimed slots (host.cancel_transfer h) ∙ claim.cancels h)
    | inr e ↦ rw e (cancel_all-claimed slots h)
  ]

  -- What a release that failed leaves.
  pub record IsUnreleased (h : lib.Handle) : Type 0 where
    pub from : lib.Handle
    pub error : lib.Error
    pub fails : (host.release_interface video_interface from).1 ≡ err error
    pub left : (host.release_interface video_interface from).0 ≡ h

  -- The interface is not claimed, unless its release failed, which the code only logs.
  abbrev pub IsFree : lib.Handle → Type 0
  IsFree h = (claimed h ≡ false) ⊎ IsUnreleased h

  -- A session that is over, its slots freed and its interface released.
  abbrev pub IsStopped : Option (UsbSession lib) → Type 0
  IsStopped none = ⊥
  IsStopped (some session) =
      IsFree session.handle × (session.stopped ≡ true × session.transfers.slots ≡ [])

  -- A session that is later stopped, with these callbacks before and this wait.
  abbrev stopped_later : List Callback → Waits → UsbSession lib → Option (UsbSession lib)
  stopped_later callbacks waited session =
      stop lib host waited
        (record session { transfers = run_callbacks session.transfers callbacks })

  -- What an opening leaves: a session that holds the interface, its 64 transfers in flight, and
  -- that can be stopped; or an error with the interface free.
  abbrev pub IsOpened : List Callback → Waits → Opened lib host → Type 0
  IsOpened callbacks waited (session_ready session) =
      claimed session.handle ≡ true
      × (length session.transfers.slots ≡ 64
          × (All Submitted session.transfers.slots
              × IsStopped (stopped_later callbacks waited session)))
  IsOpened callbacks waited (refused h error) = IsFree h
  IsOpened callbacks waited dropping = ⊥
