-- ===== src/Uri/Examples.antt =====
-- The URI of a storage with an IPv6 address.
use fts.Common.{all_chars, arith, digits, refl, show_nat, ◌≡◌}
use fts.Uri.Parse.{parse}
use fts.Uri.RoundTrip.{parse-write_uri, write_uri}

parse-write_uri_example :
    parse (write_uri "https" "[2001:db8::1]" 8443 "data/file" "copy=1") ≡ record {
      full_uri = "https://[2001:db8::1]:8443/data/file?copy=1";
      protocol = "https";
      host = "[2001:db8::1]";
      port = 8443;
      path = "/data/file";
      query_string = "copy=1";
    }
unfolding write_uri all_chars show_nat digits
parse-write_uri_example =
    parse-write_uri "https" "[2001:db8::1]" 8443 "data/file" "copy=1"
      (record {
        protocol_plain = refl;
        protocol_given = refl;
        host_plain = refl;
        path_plain = refl;
        query_plain = refl;
      })
      (omega arith)
