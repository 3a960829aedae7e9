-- ===== src/Client/Accepts.antt =====
-- internal/client/client.go: Validate beside the description of a valid client.
use certus.Common.{negsuc, pos, ◌≡◌, ◌↔◌, arith, ok, reject, reject-ok_iff, iff_trans, seq_iff, ℤ}
use certus.Client.Types.{
  min_access_token_lifetime, max_access_token_lifetime, min_refresh_token_lifetime,
  max_refresh_token_lifetime, Platform, Client,
}
use certus.Client.Policy.{validate_token_lifetime}
use certus.Client.Validate.{validate_lifetimes, validate}
use certus.Client.Words.{lifetimes_order_iff}
use certus.Client.Valid.{IsLifetime, HasLifetimes, IsValid}
use certus.Client.ValidParts.{
  validate_application_iff, validate_names_iff, validate_links_iff, validate_protocols_iff,
  validate_grants_iff, validate_redirects_iff, validate_backchannel_iff, validate_login_iff,
  validate_introspection_iff, validate_scopes_iff, validate_cas_iff,
}

validate_access-IsLifetime_iff :
    (z : ℤ)
    → (validate_token_lifetime z min_access_token_lifetime max_access_token_lifetime ≡ ok tt)
      ↔ IsLifetime 60 86400 z
unfolding validate_token_lifetime reject
validate_access-IsLifetime_iff (pos n) = ground arith
validate_access-IsLifetime_iff (negsuc n) = (λ h. ground arith, λ h. ground arith)

validate_refresh-IsLifetime_iff :
    (z : ℤ)
    → (validate_token_lifetime z min_refresh_token_lifetime max_refresh_token_lifetime ≡ ok tt)
      ↔ IsLifetime 3600 31536000 z
unfolding validate_token_lifetime reject
validate_refresh-IsLifetime_iff (pos n) = ground arith
validate_refresh-IsLifetime_iff (negsuc n) = (λ h. ground arith, λ h. ground arith)

validate_lifetimes_iff : (c : Client) → (validate_lifetimes c ≡ ok tt) ↔ HasLifetimes c
unfolding validate_lifetimes
validate_lifetimes_iff c =
    iff_trans
      (seq_iff (validate_access-IsLifetime_iff c.access_token_lifetime_seconds) (
        seq_iff (validate_refresh-IsLifetime_iff c.refresh_token_lifetime_seconds)
          (reject-ok_iff _ _)))
      (
        λ (a, (b, order)). (a, b, (lifetimes_order_iff c a b).0 (ground (arith, order))),
        λ (a, b, order). (a, (b, ground (arith, (lifetimes_order_iff c a b).1 order))),
      )

-- Validate accepts a client exactly if the client is valid: every condition of the record holds. They
-- are on the registration's fields, by membership, ranges of characters, lengths and seconds, and do
-- not use the tests of the source, but for the length of a URL in bytes.
pub validate_iff : (g : Platform) (c : Client) → (validate g c ≡ ok tt) ↔ IsValid g c
unfolding validate
validate_iff g c =
    iff_trans
      (seq_iff (validate_names_iff c) (
        seq_iff (validate_links_iff g c) (
          seq_iff (validate_application_iff c) (
            seq_iff (validate_protocols_iff c) (
              seq_iff (validate_grants_iff c) (
                seq_iff (validate_redirects_iff g c) (
                  seq_iff (validate_backchannel_iff g c) (
                    seq_iff (validate_login_iff c) (
                      seq_iff (validate_introspection_iff c) (
                        seq_iff (validate_scopes_iff c)
                          (seq_iff (validate_lifetimes_iff c) (validate_cas_iff g c))))))))))))
      (
        λ (a, (b, (d, (e, (f, (i, (j, (k, (l, (m, (n, o))))))))))). record {
          names = a;
          links = b;
          application = d;
          protocols = e;
          grants = f;
          redirects = i;
          backchannel = j;
          login = k;
          introspection = l;
          scopes = m;
          lifetimes = n;
          cas = o;
        },
        λ v. (
          v.names,
          (
            v.links,
            (
              v.application,
              (
                v.protocols,
                (
                  v.grants,
                  (
                    v.redirects,
                    (v.backchannel, (v.login, (v.introspection, (v.scopes, (v.lifetimes, v.cas))))),
                  ),
                ),
              ),
            ),
          ),
        ),
      )
