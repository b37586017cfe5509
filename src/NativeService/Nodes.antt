-- ===== src/NativeService/Nodes.antt =====
-- `getSystemNode` and `setSystemNode`: which files they touch, what they leave open, what they return.
use vr_admin.Prelude.{
  ◌<◌, ◌≡◌, ◌↔◌, refl, ap, inl, inr, true, false, ltb_ℤ, Bool-cases, Option, none, some, length,
  take, ℤ, pos, ok, undefined, arith,
}
use vr_admin.CString.{Bytes, c_str, read_c_str}
use vr_admin.CString.Buffers.{IsCString, has_terminator-IsCString, filled_terminated, filled_full}
use vr_admin.NativeService.System.{Os}
use vr_admin.NativeService.WhiteList.{AllowedNode, check_access_node_perm_iff}
use vr_admin.NativeService.{
  no_error, err_perm, err_nofound, err_rdwr, check_access_node_perm, Answer, finish_read, read_node,
  get_system_node, write_node, set_system_node,
}

module _ (os : Os) where
  open os use {World, access, open_read, open_write, read, write, close}

  -- What a call may do to the system with a node: nothing; or, with a node of the white list, an
  -- open that fails, or one that is followed by one transfer and by the close of that descriptor.
  pub data ReadSession (path : Bytes) (w : World) : World → Type 0 where
    untouched : ReadSession path w w
    refused :
        AllowedNode path
        → ltb_ℤ (open_read path w).0 (pos 0) ≡ true
        → ReadSession path w (open_read path w).1
    transferred :
        AllowedNode path
        → ltb_ℤ (open_read path w).0 (pos 0) ≡ false
        → ReadSession path w
            (close (open_read path w).0 (read (open_read path w).0 128 (open_read path w).1).1)

  pub data WriteSession (path value : Bytes) (w : World) : World → Type 0 where
    untouched : WriteSession path value w w
    refused :
        AllowedNode path
        → ltb_ℤ (open_write path w).0 (pos 0) ≡ true
        → WriteSession path value w (open_write path w).1
    transferred :
        AllowedNode path
        → ltb_ℤ (open_write path w).0 (pos 0) ≡ false
        → WriteSession path value w (
            close (open_write path w).0 (write (open_write path w).0 value (open_write path w).1).1)

  allowed : (path : Bytes) → check_access_node_perm (some path) ≡ true → AllowedNode path
  allowed path p = (check_access_node_perm_iff path).0 p

  -- `setSystemNode` opens and writes nodes of the white list only, writes nothing but the value, and
  -- closes what it opened, on every branch.
  pub set_system_node-WriteSession :
      (path value : Bytes) (w : World)
      → WriteSession path value w (set_system_node os path value w).1
  unfolding set_system_node
  set_system_node-WriteSession path value w = elim (Bool-cases (access path w)) [
    | inr e ↦ rw e untouched
    | inl e ↦ elim (Bool-cases (check_access_node_perm (some path))) [
      | inr p ↦ rw (e, p) untouched
      | inl p ↦
          rw (e, p)
            (elim (Bool-cases (ltb_ℤ (open_write path w).0 (pos 0))) [
              | inl f ↦ rw (f, write_node) (refused (allowed path p) f)
              | inr f ↦ rw (f, write_node) (transferred (allowed path p) f)
            ])
    ]
  ]

  -- What the results of `setSystemNode` mean.
  pub record WriteResults (path value : Bytes) (w : World) (ret : ℤ) : Type 0 where
    pub ok_iff : (ret ≡ no_error) ↔ (
        (access path w ≡ true)
        × AllowedNode path
        × (ltb_ℤ (open_write path w).0 (pos 0) ≡ false)
        × (ltb_ℤ (write (open_write path w).0 value (open_write path w).1).0 (pos 0) ≡ false))
    pub nofound_iff : (ret ≡ err_nofound) ↔ (access path w ≡ false)
    pub rdwr_iff : (ret ≡ err_rdwr) ↔ (
        (access path w ≡ true)
        × AllowedNode path
        × (ltb_ℤ (open_write path w).0 (pos 0) ≡ false)
        × (ltb_ℤ (write (open_write path w).0 value (open_write path w).1).0 (pos 0) ≡ true))

  -- `setSystemNode` returns NO_ERROR exactly when the file exists and is in the white list and the
  -- open and the write succeed, ERR_NOFOUND exactly when it does not exist, white list or not, and
  -- ERR_RDWR exactly when only the write fails.
  pub set_system_node-WriteResults :
      (path value : Bytes) (w : World)
      → WriteResults path value w (set_system_node os path value w).0
  unfolding set_system_node
  set_system_node-WriteResults path value w =
      let spec = check_access_node_perm_iff path in
      record {
        ok_iff = (
          λ h. (ground arith, spec.0 (ground arith), ground arith, ground arith),
          λ h. ground (arith, spec.1 h.1),
        );
        nofound_iff = (λ h. ground arith, λ h. ground arith);
        rdwr_iff = (
          λ h. (ground arith, spec.0 (ground arith), ground arith, ground arith),
          λ h. ground (arith, spec.1 h.1),
        );
      }

  -- The result of a read and the value after it: the text up to its first 0 replaces the value if the
  -- file exists and is in the white list, is opened and read; else the value is left, and the result
  -- tells what failed.
  pub data ReadResult (path value : Bytes) (w : World) : ℤ → Bytes → Type 0 where
    no_file : access path w ≡ false → ReadResult path value w err_nofound value
    not_listed : access path w ≡ true → ¬ AllowedNode path → ReadResult path value w err_perm value
    not_opened :
        access path w ≡ true
        → AllowedNode path
        → ltb_ℤ (open_read path w).0 (pos 0) ≡ true
        → ReadResult path value w err_perm value
    not_read :
        access path w ≡ true
        → AllowedNode path
        → ltb_ℤ (open_read path w).0 (pos 0) ≡ false
        → (read (open_read path w).0 128 (open_read path w).1).0 ≡ none
        → ReadResult path value w err_rdwr value
    node_read :
        {s : Bytes}
        → access path w ≡ true
        → AllowedNode path
        → ltb_ℤ (open_read path w).0 (pos 0) ≡ false
        → (read (open_read path w).0 128 (open_read path w).1).0 ≡ some s
        → ReadResult path value w no_error (c_str s)

  -- A read that returned.
  pub record Reads (path value : Bytes) (w : World) (ret : ℤ) (value' : Bytes) (w' : World)
      : Type 0 where
    pub session : ReadSession path w w'
    pub result : ReadResult path value w ret value'

  abbrev pub Returns : Bytes → Bytes → World → Answer os → Type 0
  Returns path value w answer =
      (ret : ℤ) × (value' : Bytes) × (w' : World) × (answer ≡ ok (ret, value', w'))
      × Reads path value w ret value' w'

  unread :
      (path value : Bytes) (w w' : World) (ret : ℤ)
      → ReadResult path value w ret value
      → ReadSession path w w'
      → Returns path value w (ok (ret, value, w'))
  unread path value w w' ret r s = (ret, value, w', refl, record { session = s; result = r })

  finish_read-Returns :
      (path value : Bytes) (w : World) (got : Option Bytes × World)
      → access path w ≡ true
      → AllowedNode path
      → ltb_ℤ (open_read path w).0 (pos 0) ≡ false
      → read (open_read path w).0 128 (open_read path w).1 ≡ got
      → ReadSession path w (close (open_read path w).0 got.1)
      → ((s : Bytes) → got.0 ≡ some s → length s < 128)
      → Returns path value w (finish_read os (open_read path w).0 value got)
  finish_read-Returns path value w (none, w') x a f e session short =
      unread path value w _ err_rdwr (not_read x a f (ap (λ g. g.0) e)) session
  finish_read-Returns path value w (some s, w') x a f e session short =
      let (t, same) = filled_terminated 127 s (omega (arith, short s refl)) in
      (
        no_error,
        c_str s,
        close (open_read path w).0 w',
        unfold read_c_str in rw (t, same),
        record { session = session; result = node_read x a f (ap (λ g. g.0) e) },
      )

  unlisted : (path : Bytes) → check_access_node_perm (some path) ≡ false → ¬ AllowedNode path
  unlisted path p a = let listed = (check_access_node_perm_iff path).1 a in cc

  -- If a node gives fewer than 128 bytes, `getSystemNode` returns; it opens and reads nodes of the
  -- white list only and closes what it opened. NO_ERROR comes with the text that was read, up to its
  -- first 0, just if nothing failed, and any other result with the value as it was.
  pub get_system_node-Returns :
      (path value : Bytes) (w : World)
      → ((s : Bytes)
          → (read (open_read path w).0 128 (open_read path w).1).0 ≡ some s
          → length s < 128)
      → Returns path value w (get_system_node os path value w)
  unfolding get_system_node
  get_system_node-Returns path value w short = elim (Bool-cases (access path w)) [
    | inr e ↦ rw e (unread path value w w err_nofound (no_file e) untouched)
    | inl e ↦ elim (Bool-cases (check_access_node_perm (some path))) [
      | inr p ↦
          rw (e, p) (unread path value w w err_perm (not_listed e (unlisted path p)) untouched)
      | inl p ↦
          rw (e, p)
            (elim (Bool-cases (ltb_ℤ (open_read path w).0 (pos 0))) [
              | inl f ↦
                  rw (f, read_node)
                    (unread path value w _ err_perm (not_opened e (allowed path p) f)
                      (refused (allowed path p) f))
              | inr f ↦
                  rw (f, read_node)
                    (finish_read-Returns path value w _ e (allowed path p) f refl
                      (transferred (allowed path p) f) short)
            ])
    ]
  ]

  -- A node of the white list that exists, can be opened and gives 128 bytes or more, with no 0 among
  -- the first 128, fills the buffer and leaves no terminator: taking its text runs past the buffer.
  pub get_system_node_overrun :
      (path value s : Bytes) (w : World)
      → access path w ≡ true
      → AllowedNode path
      → ltb_ℤ (open_read path w).0 (pos 0) ≡ false
      → (read (open_read path w).0 128 (open_read path w).1).0 ≡ some s
      → 127 < length s
      → IsCString (take 128 s)
      → get_system_node os path value w ≡ undefined
  unfolding get_system_node
  get_system_node_overrun path value s w e a f r long text =
      rw (e, (check_access_node_perm_iff path).1 a, read_node, f) (overrun _ r)
    where
      overrun :
          (got : Option Bytes × World)
          → got.0 ≡ some s
          → finish_read os (open_read path w).0 value got ≡ undefined
      overrun (got, w') g =
          rw (g, finish_read, filled_full 127 s long)
            (unfold read_c_str in rw (has_terminator-IsCString (take 128 s) text))
