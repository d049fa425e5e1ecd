-- ===== src/Tests/Webhooks.antt =====
-- The egress policy of webhooks.
use pipe_bolt.Prelude.{err, false, ok, refl, ◌↔◌, ◌≡◌}
use pipe_bolt.Text.{codes, str_eq}
use pipe_bolt.Tests.Samples.{urls}
use pipe_bolt.Egress.{
  default_policy, is_blocked_ip, parse_url, parse_url-bracketed, trim_end_dots, v6,
  validate_egress_host, validate_scheme,
}
use pipe_bolt.Egress.Admission.{IsAdmitted, parse_url-IsAdmitted}
use pipe_bolt.Error.{invalid_dispatch_config}

accepted :
    parse_url urls (codes "Example.com.") default_policy ≡ ok (codes "https", codes "Example.com.")
unfolding parse_url validate_scheme validate_egress_host trim_end_dots str_eq
accepted = refl

private_refused :
    parse_url urls (codes "10.0.0.1") default_policy
    ≡ err (invalid_dispatch_config "sink webhook host targets a private or reserved network")
unfolding parse_url validate_scheme validate_egress_host trim_end_dots str_eq is_blocked_ip
private_refused = refl

-- The mapped form of 127.0.0.1 is not blocked.
mapped_loopback : is_blocked_ip (v6 0 0 0 0 0 0xffff 0x7f00 1) ≡ false
unfolding is_blocked_ip
mapped_loopback = refl

parse_url-IsAdmitted_example :
    (parse_url urls (codes "Example.com.") default_policy
      ≡ ok (codes "https", codes "Example.com."))
    ↔ IsAdmitted urls default_policy (codes "Example.com.") (codes "https", codes "Example.com.")
parse_url-IsAdmitted_example =
    parse_url-IsAdmitted urls default_policy (codes "Example.com.")
      (codes "https", codes "Example.com.")

https_taken : validate_scheme urls (codes "https") default_policy ≡ ok tt
unfolding validate_scheme str_eq
https_taken = refl

parse_url-bracketed_example :
    parse_url urls (codes "[::1]") default_policy ≡ ok (codes "https", codes "[::1]")
parse_url-bracketed_example =
    parse_url-bracketed urls default_policy (codes "[::1]") (codes "https", codes "[::1]")
      (codes "::1]") (λ t. refl) refl refl https_taken refl
