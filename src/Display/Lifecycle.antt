-- ===== src/Display/Lifecycle.antt =====
-- The life of a virtual display (host/src/display).
use ord.Prelude.{ℕ, ◌≡◌, true, some, ok, err, [], ◌∷◌, arith, inl, inr, Option-cases}
use ord.Display.{DisplayBackend, test_source, mutter, create_virtual_display}
use ord.Display.Mutter
use ord.Display.Mutter.{
  VirtualDisplayInfo, MutterBus, MutterError, MutterDisplayBackend, BusCall, stop, negotiate,
}

-- A display that was made has the size and the rate that were asked for.
pub create_virtual_display-size :
    (bus : MutterBus) (w h fps : ℕ) (b : DisplayBackend) {info : VirtualDisplayInfo}
    → (create_virtual_display bus w h fps b).0 ≡ ok info
    → (info.width ≡ w) × (info.height ≡ h) × (info.fps ≡ fps)
unfolding create_virtual_display
create_virtual_display-size bus w h fps (test_source _) e = ground arith
create_virtual_display-size bus w h fps (mutter m) e = ground arith

-- A creation that fails leaves the backend as it was.
pub create_virtual_display-failed :
    (bus : MutterBus) (w h fps : ℕ) (b : DisplayBackend) {x : MutterError}
    → (create_virtual_display bus w h fps b).0 ≡ err x
    → (create_virtual_display bus w h fps b).1 ≡ b
unfolding create_virtual_display
create_virtual_display-failed bus w h fps (test_source _) e = cc
create_virtual_display-failed bus w h fps (mutter m) e = ground arith

-- The session of a display that Mutter made is the one that `destroy_virtual_display` stops, once,
-- over its own connection, if a proxy of it can be made; after that there is none to stop.
pub destroy-create :
    (bus later last : MutterBus) (w h fps : ℕ) (m : MutterDisplayBackend)
    (info : VirtualDisplayInfo)
    → later.session_proxy ≡ true
    → (Mutter.create bus w h fps m).0 ≡ ok info
    → let made = (Mutter.create bus w h fps m).1 in
      let (calls, after) = Mutter.destroy later made in
      (conn : ℕ) × (bus.connect ≡ some conn)
      × (calls ≡ stop conn info.session_path ∷ [])
      × ((Mutter.destroy last after).0 ≡ [])
unfolding Mutter.create Mutter.destroy
destroy-create bus later last w h fps m info p e = elim (Option-cases bus.connect) [
  | inl c ↦ absurd (ground (arith, c))
  | inr (conn, c) ↦ (conn, c, ground (arith, c), ground (arith, c))
]
