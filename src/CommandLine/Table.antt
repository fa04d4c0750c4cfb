-- ===== src/CommandLine/Table.antt =====
-- `long_options` of UrlCopyOpts.cpp.
use fts.Common.{List, [], false, true, ◌∷◌}
use fts.CommandLine.Arguments.{LongOption}

unfoldable pub long_options : List LongOption
long_options =
    ("job-id", true, 100)
    ∷ ("file-id", true, 101)
    ∷ ("source", true, 102)
    ∷ ("destination", true, 103)
    ∷ ("user-filesize", true, 104)
    ∷ ("bulk-file", true, 105)
    ∷ ("reuse", false, 200)
    ∷ ("job-m-replica", false, 202)
    ∷ ("last-replica", false, 203)
    ∷ ("job-multihop", false, 204)
    ∷ ("last-hop", false, 205)
    ∷ ("archiving", false, 206)
    ∷ ("activity", true, 207)
    ∷ ("checksum", true, 300)
    ∷ ("checksum-mode", true, 301)
    ∷ ("strict-copy", false, 302)
    ∷ ("dst-file-report", false, 303)
    ∷ ("3rd-party-turl", true, 304)
    ∷ ("scitag", true, 305)
    ∷ ("token-bringonline", true, 400)
    ∷ ("dest-token-desc", true, 401)
    ∷ ("source-token-desc", true, 402)
    ∷ ("vo", true, 500)
    ∷ ("user-dn", true, 501)
    ∷ ("proxy", true, 502)
    ∷ ("oauth", true, 503)
    ∷ ("source-issuer", true, 504)
    ∷ ("dest-issuer", true, 505)
    ∷ ("auth-method", true, 506)
    ∷ ("copy-mode", true, 507)
    ∷ ("disable-fallback", false, 508)
    ∷ ("retrieve-se-token", false, 509)
    ∷ ("cloud-config", true, 510)
    ∷ ("infosystem", true, 600)
    ∷ ("alias", true, 601)
    ∷ ("monitoring", false, 602)
    ∷ ("ping-interval", true, 603)
    ∷ ("file-metadata", true, 700)
    ∷ ("transfer-metadata", true, 701)
    ∷ ("job-metadata", true, 702)
    ∷ ("level", true, 801)
    ∷ ("overwrite", false, 802)
    ∷ ("nstreams", true, 803)
    ∷ ("tcp-buffersize", true, 804)
    ∷ ("timeout", true, 805)
    ∷ ("udt", false, 806)
    ∷ ("ipv6", false, 807)
    ∷ ("sec-per-mb", true, 808)
    ∷ ("ipv4", false, 809)
    ∷ ("no-delegation", false, 810)
    ∷ ("no-streaming", false, 811)
    ∷ ("skip-evict", false, 812)
    ∷ ("retry", true, 820)
    ∷ ("retry_max-max", true, 821)
    ∷ ("logDir", true, 900)
    ∷ ("msgDir", true, 901)
    ∷ ("help", false, 0)
    ∷ ("debug", true, 1)
    ∷ ("stderr", false, 2)
    ∷ []
