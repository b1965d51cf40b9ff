-- ===== src/Binding/Substitute.antt =====
-- `substitute_binding` moves a path along the binding that holds it, and back.
use doki_proot.Prelude.{
  ℕ, ◌+◌, ◌≡◌, ◌≢◌, ◌<◌, ap, ◌∙◌, leb, ◌⊎◌, inl, inr, true, false, some, Bytes, length, arith, ok,
  ◌>>=◌,
}
use doki_proot.Path.Join.{path_max}
use doki_proot.Path.Prefix.Laws.{IsDir, below, substitute_path_prefix-below}
use doki_proot.Binding.{
  guest, host, Binding, Bindings, get_binding, substitute_by, substitute_binding,
}
use doki_proot.Binding.Keys.{IsSound}

-- What an asymmetric binding must be for the substitution to make sense, and the rest of a path
-- below it: the two directories are not both "/", and the rest is not a lone separator.
pub record IsMove (b : Binding) (rest : Bytes) : Type 0 where
  pub sound : IsSound b
  pub asymmetric : b.need_substitution ≡ true
  pub guest_dir : IsDir b.guest_path.path
  pub host_dir : IsDir b.host_path.path
  pub proper : (1 < length b.guest_path.path) ⊎ (1 < length b.host_path.path)
  pub rest_fits : length rest ≢ 1
  pub guest_fits : length (below b.guest_path.path rest) + 1 < path_max
  pub host_fits : length (below b.host_path.path rest) + 1 < path_max

swap_sides : {A B : Type 0} → A ⊎ B → B ⊎ A
swap_sides (inl a) = inr a
swap_sides (inr b) = inl b

fits_buffer : (n : ℕ) → n + 1 < path_max → leb path_max n ≡ false
fits_buffer n h = ground arith

module _ (b : Binding) (rest : Bytes) (m : IsMove b rest) where
  by_guest :
      substitute_by guest (some b) (below b.guest_path.path rest)
      ≡ ok (true, below b.host_path.path rest)
  unfolding substitute_by
  by_guest =
      rw
        (
          m.asymmetric,
          m.sound.guest_sized.sized,
          m.sound.host_sized.sized,
          substitute_path_prefix-below b.guest_path.path b.host_path.path rest m.guest_dir
              m.host_dir m.proper (inr m.rest_fits) m.host_fits,
        )
        (rw (fits_buffer (length (below b.host_path.path rest)) m.host_fits))

  by_host :
      substitute_by host (some b) (below b.host_path.path rest)
      ≡ ok (true, below b.guest_path.path rest)
  unfolding substitute_by
  by_host =
      rw
        (
          m.asymmetric,
          m.sound.guest_sized.sized,
          m.sound.host_sized.sized,
          substitute_path_prefix-below b.host_path.path b.guest_path.path rest m.host_dir
              m.guest_dir (swap_sides m.proper) (inr m.rest_fits) m.guest_fits,
        )
        (rw (fits_buffer (length (below b.guest_path.path rest)) m.guest_fits))

module _ (fs : Bindings) (b : Binding) (rest : Bytes) (m : IsMove b rest) where
  -- A guest path below an asymmetric binding, found by the search, moves to the same place below
  -- the binding's host path, by the status 1.
  pub substitute_binding-guest :
      get_binding fs guest (below b.guest_path.path rest) ≡ some b
      → substitute_binding fs guest (below b.guest_path.path rest)
        ≡ ok (true, below b.host_path.path rest)
  substitute_binding-guest h =
      unfold substitute_binding in
      ap (λ o. substitute_by guest o (below b.guest_path.path rest)) h ∙ by_guest b rest m

  substitute_binding-host :
      get_binding fs host (below b.host_path.path rest) ≡ some b
      → substitute_binding fs host (below b.host_path.path rest)
        ≡ ok (true, below b.guest_path.path rest)
  substitute_binding-host h =
      unfold substitute_binding in
      ap (λ o. substitute_by host o (below b.host_path.path rest)) h ∙ by_host b rest m

  -- For a sound, asymmetric binding whose sides are directories, not both of them "/", and a rest
  -- below it that is not a lone '/', where the path fits into PATH_MAX on both sides: if the
  -- search finds this binding for the guest path and also for the host path, then translating the
  -- guest path to the host and the result back gives the guest path, by the status 1.
  pub substitute_binding_back :
      get_binding fs guest (below b.guest_path.path rest) ≡ some b
      → get_binding fs host (below b.host_path.path rest) ≡ some b
      → (substitute_binding fs guest (below b.guest_path.path rest) >>= λ r.
          substitute_binding fs host r.1)
        ≡ ok (true, below b.guest_path.path rest)
  substitute_binding_back g h = rw (substitute_binding-guest g) (substitute_binding-host h)
