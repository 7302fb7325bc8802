-- ===== src/Tests/Fastcgi.antt =====
-- FastCGI pairs and records, and escaped texts, at concrete inputs.
use uce.Base.{
  true, false, ◌+◌, All, inl, inr, [], ◌∷◌, ◌++◌, ◌≡◌, refl, some, Bytes, length, codes, arith,
  compare_bytes,
}
use uce.Base.Maps.{StringMap}
use uce.Fastcgi.Pairs.{write_pairs, parse_pairs_fcgi-write_pairs}
use uce.Fastcgi.Records.{stream, stream-write_data_fcgi}
use uce.Fastcgi.{parse_pairs_fcgi, write_data_fcgi}
use uce.Text.Xml.{IsTextChar, parsed_text, xml_escape_text, xml_escape_attr, xml_escape_lem}
use uce.Text.Escape.Readers.{
  outside, shell_word, html_text, shell_word-shell_escape, html_text-html_escape,
}
use uce.Text.Escape.{html_escape, shell_escape}

abbrev limits_asked : StringMap
limits_asked = (codes "FCGI_MAX_CONNS", codes "100") ∷ (codes "FCGI_MAX_REQS", codes "1000") ∷ []

parse_pairs_fcgi-write_pairs_example : parse_pairs_fcgi (write_pairs [] limits_asked) ≡ limits_asked
unfolding compare_bytes
parse_pairs_fcgi-write_pairs_example =
    parse_pairs_fcgi-write_pairs limits_asked
      ((omega arith, omega arith), ((omega arith, omega arith), tt)) ((refl, tt), (tt, tt))

stream-write_data_fcgi_example :
    (bytes : Bytes) × (write_data_fcgi (codes "old") 3 (codes "hello") 6 ≡ codes "old" ++ bytes)
    × (stream (length (codes "hello") + 1) 6 3 bytes ≡ some (codes "hello"))
stream-write_data_fcgi_example =
    stream-write_data_fcgi (codes "old") (codes "hello") 3 6 (omega arith)

shell_word-shell_escape_example :
    shell_word outside (shell_escape (codes "it's; rm -rf")) ≡ some (codes "it's; rm -rf")
shell_word-shell_escape_example = shell_word-shell_escape (codes "it's; rm -rf")

html_text-html_escape_example :
    html_text 0 (html_escape (codes "<a href='&'>")) ≡ some (codes "<a href='&'>")
html_text-html_escape_example = html_text-html_escape (codes "<a href='&'>")

xml_escape_lem_example :
    (parsed_text false 0 (xml_escape_text (codes "a<'b'>&\n")) ≡ some (codes "a<'b'>&\n"))
    × (parsed_text true 0 (xml_escape_attr (codes "a<'b'>&")) ≡ some (codes "a<'b'>&"))
xml_escape_lem_example =
    xml_escape_lem (codes "a<'b'>&\n") (codes "a<'b'>&") text_kept (omega arith)
  where
    text_kept : All IsTextChar (codes "a<'b'>&\n")
    text_kept = (
      inl (omega arith),
      (
        inl (omega arith),
        (
          inl (omega arith),
          (
            inl (omega arith),
            (inl (omega arith), (inl (omega arith), (inl (omega arith), (inr (inr refl), tt)))),
          ),
        ),
      ),
    )
