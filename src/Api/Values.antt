-- ===== src/Api/Values.antt =====
-- `fx5_set_write_value` and `fx5_get_response_value`: the values of a request, words or bits.
use fx5_slmp_library.Prelude.{
  ℕ, ◌/◌, ◌<◌, ◌≡◌, refl, true, not, some, List, arith, get_or, set, get_or-set_self, get_or-set_ne,
  ◌==◌, if◌then◌else◌,
}
use fx5_slmp_library.Types.{st_ok, Device}
use fx5_slmp_library.Context.{Context}
use fx5_slmp_library.Packed.{slot_of, store_bit, bit_of, bit_of-store_bit, get_packed_bit_value_lem}
use fx5_slmp_library.Request.Devices.{is_bit_device, get_max_value_count}
use fx5_slmp_library.Api.Handle.{require_acquired}
use fx5_slmp_library.Api.Configure.{
  set_write_value_on, set_write_value, get_response_value_on, get_response_value,
}
use fx5_slmp_library.Api.Invariant.{IsWellFormed}

-- What a value that is written reads as: a bit device has two values.
abbrev pub written_as : Device → ℕ → ℕ
written_as device v = if is_bit_device device then (if v == 0 then 0x0000 else 0x00FF) else v

-- The values after an accepted write.
abbrev pub written : Context → ℕ → ℕ → List ℕ
written c i v =
    if is_bit_device c.device then store_bit c.values i (not (v == 0)) else set c.values i v

slot_of_lem : (i : ℕ) → i < 512 → slot_of i ≡ i / 16
unfolding slot_of
slot_of_lem i h = omega arith

module _ (c : Context) (w : IsWellFormed c) (used : c.in_use ≡ true) where
  pub write_accepted :
      (i v : ℕ)
      → i < c.count
      → set_write_value (some c) i v ≡ (some (record c { values = written c i v }), st_ok)
  unfolding set_write_value set_write_value_on require_acquired get_max_value_count
  write_accepted i v h = ground (arith, w.count_fits, slot_of_lem i)

  pub read_accepted :
      (values : List ℕ) (j : ℕ)
      → j < c.count
      → get_response_value (some (record c { values = values })) j true ≡ (
        st_ok,
        some (
            if is_bit_device c.device
            then (if bit_of values j == 1 then 0x00FF else 0x0000)
            else get_or values j 0),
      )
  unfolding get_response_value get_response_value_on require_acquired get_max_value_count
  read_accepted values j h =
      ground (arith, w.count_fits, slot_of_lem j, get_packed_bit_value_lem values j)

  -- On a well-formed context in use, a value written to a slot of the request reads back from that
  -- slot, as 0x00FF or 0 on a bit device, and every other slot of the request reads as before.
  pub get_response_value-set_write_value :
      (i j v : ℕ)
      → i < c.count
      → j < c.count
      → let (c', status) = set_write_value (some c) i v in
        (status ≡ st_ok)
        × (get_response_value c' j true ≡ (
            if j == i
            then (st_ok, some (written_as c.device v))
            else get_response_value (some c) j true))
  unfolding get_max_value_count
  get_response_value-set_write_value i j v h k =
      rw (write_accepted i v h, read_accepted (written c i v) j k, read_accepted c.values j k)
        (
          refl,
          ground (
            arith,
            w.count_fits,
            w.storage.values_length,
            bit_of-store_bit c.values i j (not (v == 0)),
            get_or-set_self c.values i v 0,
            get_or-set_ne c.values i j v 0,
          ),
        )
