-- ===== src/Dns/Make.antt =====
-- `make_driver` of src/solfleet/dns.py. The environment variable is a parameter.
use solfleet.Prelude.{
  String, Option, none, some, truthy, if◌then◌else◌, Result, ok, err, value_error,
}
use solfleet.Prelude.Text.{lit}
use solfleet.Config.{DnsConfig, Provider, cloudflare, route53}
use solfleet.Dns.Names.{fqdn}

-- The driver that is made, with the zone and the token that it keeps.
pub data Driver : Type 0 where
  cloudflare_driver : String → String → Driver
  route53_driver : String → Driver

-- `token or os.environ.get("CLOUDFLARE_API_TOKEN")`
abbrev token_or : Option String → Option String → Option String
token_or token environ = if truthy token then token else environ

abbrev with_token : String → Option String → Result Driver
with_token zone none = err (value_error (lit "cloudflare driver needs CLOUDFLARE_API_TOKEN"))
with_token zone (some token) =
    if truthy (some token)
    then ok (cloudflare_driver zone token)
    else err (value_error (lit "cloudflare driver needs CLOUDFLARE_API_TOKEN"))

abbrev make : Provider → String → Option String → Option String → Result Driver
make cloudflare zone token environ = with_token zone (token_or token environ)
make route53 zone token environ = ok (route53_driver (fqdn zone))

unfoldable pub make_driver : DnsConfig → Option String → Option String → Result Driver
make_driver dns token environ = make dns.provider dns.zone token environ
