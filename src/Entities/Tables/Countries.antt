-- ===== src/Entities/Tables/Countries.antt =====
-- The market zones of custom_components/wattpilot/descriptions.py.
use ha_wattpilot.Base.{[], ◌∷◌, codes, pos}
use ha_wattpilot.Json.{int}
use ha_wattpilot.Entities.Platforms.{Labels}

abbrev pub awattar_countries : Labels
awattar_countries =
    (int (pos 0), codes "Austria")
    ∷ (int (pos 10043), codes "Belgium")
    ∷ (int (pos 10016), codes "Bulgaria")
    ∷ (int (pos 10003), codes "Croatia")
    ∷ (int (pos 10019), codes "Czechia")
    ∷ (int (pos 10024), codes "Denmark DK1")
    ∷ (int (pos 10036), codes "Denmark DK2")
    ∷ (int (pos 10055), codes "Denmark Tibber DK1")
    ∷ (int (pos 10056), codes "Denmark Tibber DK2")
    ∷ (int (pos 100055), codes "Denmark Tibber DK1 (alias 100055)")
    ∷ (int (pos 100056), codes "Denmark Tibber DK2 (alias 100056)")
    ∷ (int (pos 10020), codes "Estonia")
    ∷ (int (pos 10004), codes "Finland")
    ∷ (int (pos 10015), codes "France")
    ∷ (int (pos 1), codes "Germany")
    ∷ (int (pos 10006), codes "Greece")
    ∷ (int (pos 10042), codes "Hungary")
    ∷ (int (pos 10017), codes "Italy Calabria")
    ∷ (int (pos 10031), codes "Italy Centre-North")
    ∷ (int (pos 10009), codes "Italy Centre-South")
    ∷ (int (pos 10034), codes "Italy North")
    ∷ (int (pos 10023), codes "Italy SacoAC")
    ∷ (int (pos 10001), codes "Italy SacoDC")
    ∷ (int (pos 10029), codes "Italy Sardinia")
    ∷ (int (pos 10005), codes "Italy Sicily")
    ∷ (int (pos 10041), codes "Italy South")
    ∷ (int (pos 10010), codes "Latvia")
    ∷ (int (pos 10030), codes "Lithuania")
    ∷ (int (pos 10012), codes "Montenegro")
    ∷ (int (pos 10038), codes "Netherlands")
    ∷ (int (pos 10057), codes "Norway Elspot1")
    ∷ (int (pos 10058), codes "Norway Elspot2")
    ∷ (int (pos 10059), codes "Norway Elspot3")
    ∷ (int (pos 10060), codes "Norway Elspot4")
    ∷ (int (pos 10061), codes "Norway Elspot5")
    ∷ (int (pos 10021), codes "Norway NO2NSL")
    ∷ (int (pos 10037), codes "Poland")
    ∷ (int (pos 10027), codes "Portugal")
    ∷ (int (pos 10044), codes "Romania")
    ∷ (int (pos 10039), codes "Serbia")
    ∷ (int (pos 10040), codes "Slovakia")
    ∷ (int (pos 10025), codes "Slovenia")
    ∷ (int (pos 10018), codes "Spain")
    ∷ (int (pos 10062), codes "Sweden Elspot1")
    ∷ (int (pos 10063), codes "Sweden Elspot2")
    ∷ (int (pos 10064), codes "Sweden Elspot3")
    ∷ (int (pos 10065), codes "Sweden Elspot4")
    ∷ (int (pos 10045), codes "Sweden Tibber Elspot1")
    ∷ (int (pos 10046), codes "Sweden Tibber Elspot2")
    ∷ (int (pos 10047), codes "Sweden Tibber Elspot3")
    ∷ (int (pos 10048), codes "Sweden Tibber Elspot4")
    ∷ (int (pos 10035), codes "Switzerland")
    ∷ (int (pos 10002), codes "Ukraine")
    ∷ []
