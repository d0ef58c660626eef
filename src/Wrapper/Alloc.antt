-- ===== src/Wrapper/Alloc.antt =====
-- What `ociHandleAlloc`, `ociDescriptorAlloc` and `ociParamGet` return.
use go_oci.Prelude.{
  ℕ, ◌<◌, ◌≡◌, ◌≢◌, ◌↔◌, refl, none, some, Outcome, ok, fail, panic, ◌⊎◌, inl, inr, arith, ltb,
}
use go_oci.Oci.{Sword}
use go_oci.Conn.{ConnError}
use go_oci.Conn.Errors.{get_error-nil}
use go_oci.Wrapper.{
  Handles, HandleType, Request, Reply, Allocated, allocated, error_of, handle_alloc,
  descriptor_alloc, oci_handle_alloc, oci_descriptor_alloc,
}

-- The call of OCI succeeded: there is no error, the handle is there, and the user memory exactly
-- where some was asked for.
abbrev Obtained : Reply → ℕ → Allocated → Type 0
Obtained r size a =
    (r.result ≡ Sword.success)
    × (a.error ≡ ok tt)
    × (a.handle ≡ some r.handle)
    × (0 < size → a.buffer ≡ some r.buffer)
    × (size ≡ 0 → a.buffer ≡ none)

-- It did not: there is an error, and nothing that was allocated is returned.
abbrev Refused : Reply → Allocated → Type 0
Refused r a = (r.result ≢ Sword.success) × (a.error ≢ ok tt) × (a.handle ≡ none) × (a.buffer ≡ none)

allocated-Obtained :
    (r : Reply) (size : ℕ) (e : Outcome ConnError (Unit {0}))
    → (e ≡ ok tt) ↔ (r.result ≡ Sword.success)
    → Obtained r size (allocated r size e) ⊎ Refused r (allocated r size e)
allocated-Obtained r size (ok u) h =
    inl (h.0 refl, refl, refl, λ z. ground (arith, z), λ z. ground (arith, z))
allocated-Obtained r size (fail e) h = inr ((λ s. let q = h.1 s in cc), (λ q. cc), refl, refl)
allocated-Obtained r size panic h = inr ((λ s. let q = h.1 s in cc), (λ q. cc), refl, refl)

-- Whatever OCI replies to the call, `ociHandleAlloc` and `ociDescriptorAlloc` return no error
-- exactly for `OCI_SUCCESS`; then they return the handle, and the user memory exactly where some was
-- asked for, and otherwise nil for both.
oci_handle_alloc-oci_descriptor_alloc :
    (oci : Request → Reply) (conn : Handles) (type : HandleType) (size : ℕ)
    → (let r = oci (handle_alloc conn.env type size (ltb 0 size)) in
        Obtained r size (oci_handle_alloc oci conn type size)
        ⊎ Refused r (oci_handle_alloc oci conn type size))
      × (let r = oci (descriptor_alloc conn.env type size (ltb 0 size)) in
          Obtained r size (oci_descriptor_alloc oci conn type size)
          ⊎ Refused r (oci_descriptor_alloc oci conn type size))
unfolding oci_handle_alloc oci_descriptor_alloc
oci_handle_alloc-oci_descriptor_alloc oci conn type size = (
  (let r = oci (handle_alloc conn.env type size (ltb 0 size)) in
      allocated-Obtained r size (error_of r) (get_error-nil r.result r.diagnostic)),
  (let r = oci (descriptor_alloc conn.env type size (ltb 0 size)) in
      allocated-Obtained r size (error_of r) (get_error-nil r.result r.diagnostic)),
)
