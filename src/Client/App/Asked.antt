-- ===== src/Client/App/Asked.antt =====
-- The context that a command to read has made its request of, before and after the frame is built.
use fx5_slmp_library.Prelude.{ℕ, ◌≡◌, refl, subst, true, [], some, Bool-cases, inl, inr}
use fx5_slmp_library.Types.{st_ok, Device, batch_read}
use fx5_slmp_library.Context.{Context, reset_internal}
use fx5_slmp_library.RingBuf
use fx5_slmp_library.RingBuf.Contents.{contents}
use fx5_slmp_library.Request.Devices.{is_known, is_4e, validate_request}
use fx5_slmp_library.Api.Frame.{after_build}
use fx5_slmp_library.Api.Invariant.{IsWellFormed}
use fx5_slmp_library.Api.Ready.{IsReady}
use fx5_slmp_library.Api.Requests.{
  is_request, requested, set_request_lem, validate_request-set_request,
}
use fx5_slmp_library.Client.Config.{ClientConfig}
use fx5_slmp_library.Client.Commands.Apply.{configured, configured-IsReady, request-IsReady}

pub nothing_held : (c : Context) → contents (reset_internal c).rx_cbuffer ≡ []
unfolding reset_internal RingBuf.init
nothing_held c = refl

module _ (c : Context) (config : ClientConfig) (w : IsWellFormed c) (used : c.in_use ≡ true)
    (known : is_known config.network_settings.header_type ≡ true) (device : Device)
    (address count : ℕ) (ok : is_request batch_read device address count ≡ true) where
  abbrev pub asked : Context
  asked = requested (configured c config) batch_read device address count

  pub asked-IsReady : IsReady (some asked)
  asked-IsReady = request-IsReady c config w used known batch_read device address count ok

  pub asked_valid : validate_request asked ≡ st_ok
  asked_valid =
      let base = configured c config in
      let u = (configured-IsReady c config w used known).1 in
      let v = validate_request-set_request base batch_read device address count u known ok in
      let s = (set_request_lem base batch_read device address count u).0 ok in
      let same : v.0 ≡ asked = cc (v.1, s) in
      subst (λ (q : Context). validate_request q ≡ st_ok) same v.2

  -- Only the serial numbers have changed, and the serial number is 0.
  pub record IsBuilt (d : Context) : Type 0 where
    pub serial : d.serial ≡ 0
    pub same : d ≡ record asked { serial = d.serial; next_serial = d.next_serial }

  pub after_build-IsBuilt : IsBuilt (after_build asked)
  unfolding reset_internal
  after_build-IsBuilt = elim (Bool-cases (is_4e config.network_settings.header_type)) [
    | inl four ↦ rw four (record { serial = refl; same = refl })
    | inr three ↦ rw three (record { serial = refl; same = refl })
  ]
