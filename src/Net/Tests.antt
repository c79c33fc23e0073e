-- ===== src/Net/Tests.antt =====
-- Addresses read and printed as Go does.
use trunker.Base.{◌≡◌, refl, none}
use trunker.Base.Bytes.{codes, eq_bytes}
use trunker.Base.Decimal.{itoa}
use trunker.Net.Parse.{parse_ip}
use trunker.Net.Print.{ip_string}

prints :
    (ip_string (parse_ip (codes "192.168.0.255")) ≡ codes "192.168.0.255")
    × (ip_string (parse_ip (codes "2001:DB8::1:0:0:1")) ≡ codes "2001:db8::1:0:0:1")
    × (ip_string (parse_ip (codes "::")) ≡ codes "::")
    × (ip_string (parse_ip (codes "fe80::")) ≡ codes "fe80::")
    × (ip_string (parse_ip (codes "::ffff:1.2.3.4")) ≡ codes "1.2.3.4")
    × (ip_string (parse_ip (codes "2a09:bac5:2431:e6::17:358")) ≡ codes "2a09:bac5:2431:e6::17:358")
unfolding parse_ip ip_string itoa eq_bytes
prints = (refl, refl, refl, refl, refl, refl)

refuses :
    (parse_ip (codes "1.2.3") ≡ none)
    × (parse_ip (codes "1.2.3.04") ≡ none)
    × (parse_ip (codes "1.2.3.256") ≡ none)
    × (parse_ip (codes "1:2:3:4:5:6:7") ≡ none)
    × (parse_ip (codes "1::2::3") ≡ none)
    × (parse_ip (codes "fe80::1%eth0") ≡ none)
    × (parse_ip (codes "") ≡ none)
unfolding parse_ip
refuses = (refl, refl, refl, refl, refl, refl, refl)
