-- ===== src/Demo/Catalogue.antt =====
-- apps/core/management/commands/seed_demo.py: AUCTIONS, SELLERS and BIDDERS, with hours as minutes.
use mbarara_auction.Prelude.{String, Bool, true, false, none, some, List, [], ◌∷◌}
use mbarara_auction.Demo.{Offset, DemoState, DemoAuction}

-- a username, a phone number and, of a bidder, whether the profile is verified
abbrev pub demo_sellers : List (String × String)
demo_sellers =
    ("seller_kakoba", "0700000011")
    ∷ ("seller_ruharo", "0700000012")
    ∷ ("seller_nyamitanga", "0700000013")
    ∷ ("seller_rwampara", "0700000014")
    ∷ []

abbrev pub demo_bidders : List (String × String × Bool)
demo_bidders =
    ("bidder_amos", "0700000021", true)
    ∷ ("bidder_brenda", "0700000022", true)
    ∷ ("bidder_charles", "0700000023", true)
    ∷ ("bidder_diana", "0700000024", true)
    ∷ ("bidder_edwin", "0700000025", true)
    ∷ ("bidder_pending", "0700000026", false)
    ∷ []

abbrev ankole_long_horn : DemoAuction
ankole_long_horn = record {
  title = "Ankole long-horn bull, 4 years";
  category = "Livestock";
  seller = "seller_kakoba";
  location = "Kashari";
  start_price = 1800000;
  reserve = some 2200000;
  increment = 50000;
  state = DemoState.live;
  start_offset = Offset.ago 1200;
  end_offset = Offset.ahead 12;
  bid_count = 6;
  extension_minutes = 5;
  description =
      "Healthy Ankole long-horn bull with the breed's long, curved horns. Vaccinated and dewormed. Viewing at the Kashari farm by appointment.";
}

abbrev grade_a_arabica : DemoAuction
grade_a_arabica = record {
  title = "Grade-A Arabica coffee, 2 tonnes";
  category = "Coffee & Produce";
  seller = "seller_ruharo";
  location = "Bwizibwera";
  start_price = 9500000;
  reserve = some 11000000;
  increment = 200000;
  state = DemoState.live;
  start_offset = Offset.ago 1800;
  end_offset = Offset.ahead 45;
  bid_count = 4;
  extension_minutes = 5;
  description =
      "Two tonnes of sun-dried, hand-sorted Arabica, moisture-tested. Stored in a dry warehouse in Bwizibwera.";
}

abbrev friesian_dairy_cow : DemoAuction
friesian_dairy_cow = record {
  title = "Friesian dairy cow in calf";
  category = "Livestock";
  seller = "seller_rwampara";
  location = "Rwampara";
  start_price = 2200000;
  reserve = some 2800000;
  increment = 50000;
  state = DemoState.live;
  start_offset = Offset.ago 720;
  end_offset = Offset.ahead 180;
  bid_count = 5;
  extension_minutes = 0;
  description =
      "Third-lactation Friesian, about 18 litres a day, due to calve in 6 weeks. Records available.";
}

abbrev bajaj_boxer_boda : DemoAuction
bajaj_boxer_boda = record {
  title = "Bajaj Boxer boda boda 2021";
  category = "Vehicles";
  seller = "seller_kakoba";
  location = "Kamukuzi";
  start_price = 3800000;
  reserve = some 4200000;
  increment = 100000;
  state = DemoState.live;
  start_offset = Offset.ago 360;
  end_offset = Offset.ahead 1560;
  bid_count = 3;
  extension_minutes = 0;
  description = "Well-kept 2021 Bajaj Boxer, new tyres, valid insurance. Logbook in hand.";
}

abbrev dell_latitude_laptop : DemoAuction
dell_latitude_laptop = record {
  title = "Dell Latitude laptop, i5, 16GB RAM";
  category = "Electronics";
  seller = "seller_nyamitanga";
  location = "Mbarara City";
  start_price = 1450000;
  reserve = none;
  increment = 25000;
  state = DemoState.live;
  start_offset = Offset.ago 240;
  end_offset = Offset.ahead 3000;
  bid_count = 2;
  extension_minutes = 0;
  description = "Business laptop, 512GB SSD, battery holds about 4 hours. Charger included.";
}

abbrev mahogany_dining_set : DemoAuction
mahogany_dining_set = record {
  title = "Mahogany dining set, 6 seats";
  category = "Furniture";
  seller = "seller_nyamitanga";
  location = "Nyamitanga";
  start_price = 2600000;
  reserve = some 3000000;
  increment = 50000;
  state = DemoState.live;
  start_offset = Offset.ago 120;
  end_offset = Offset.ahead 4320;
  bid_count = 0;
  extension_minutes = 0;
  description =
      "Solid mahogany table with six upholstered chairs, hand-made in Mbarara. No bids yet.";
}

abbrev pub walking_tractor_with : DemoAuction
walking_tractor_with = record {
  title = "Walking tractor with plough";
  category = "Farm Equipment";
  seller = "seller_rwampara";
  location = "Bwizibwera";
  start_price = 8500000;
  reserve = some 9500000;
  increment = 250000;
  state = DemoState.live;
  start_offset = Offset.ago 480;
  end_offset = Offset.ahead 7200;
  bid_count = 1;
  extension_minutes = 0;
  description =
      "Two-wheel walking tractor with plough attachment, serviced this year. Ideal for 1 to 5 acres.";
}

abbrev quarter_acre_plot : DemoAuction
quarter_acre_plot = record {
  title = "Quarter-acre plot with title, Nyamitanga";
  category = "Land & Property";
  seller = "seller_ruharo";
  location = "Nyamitanga";
  start_price = 35000000;
  reserve = some 40000000;
  increment = 1000000;
  state = DemoState.scheduled;
  start_offset = Offset.ahead 30;
  end_offset = Offset.ahead 4320;
  bid_count = 0;
  extension_minutes = 0;
  description =
      "Quarter-acre plot with a land title, 300 m from the tarmac road. Boundaries marked, utilities nearby.";
}

abbrev toyota_premio : DemoAuction
toyota_premio = record {
  title = "Toyota Premio 2012";
  category = "Vehicles";
  seller = "seller_kakoba";
  location = "Kamukuzi";
  start_price = 24000000;
  reserve = some 26000000;
  increment = 500000;
  state = DemoState.scheduled;
  start_offset = Offset.ahead 360;
  end_offset = Offset.ahead 5760;
  bid_count = 0;
  extension_minutes = 5;
  description = "Toyota Premio 2012, automatic, low mileage, one owner. Inspection welcome.";
}

abbrev three_bedroom_house : DemoAuction
three_bedroom_house = record {
  title = "Three-bedroom house, Ruharo";
  category = "Land & Property";
  seller = "seller_ruharo";
  location = "Ruharo";
  start_price = 180000000;
  reserve = some 200000000;
  increment = 5000000;
  state = DemoState.scheduled;
  start_offset = Offset.ahead 240;
  end_offset = Offset.ahead 10080;
  bid_count = 0;
  extension_minutes = 10;
  description =
      "Three-bedroom house on a fenced plot with water tank and solar. Close to schools and the hospital.";
}

abbrev matooke_truck_load : DemoAuction
matooke_truck_load = record {
  title = "Matooke truck load (Bogoya)";
  category = "Coffee & Produce";
  seller = "seller_rwampara";
  location = "Rwampara";
  start_price = 1400000;
  reserve = none;
  increment = 50000;
  state = DemoState.scheduled;
  start_offset = Offset.ahead 1440;
  end_offset = Offset.ahead 1800;
  bid_count = 0;
  extension_minutes = 0;
  description = "A full truck of fresh matooke, harvested the day before the sale.";
}

abbrev hand_woven_banyankole : DemoAuction
hand_woven_banyankole = record {
  title = "Hand-woven Banyankole basket set";
  category = "Art & Crafts";
  seller = "seller_kakoba";
  location = "Kakoba";
  start_price = 180000;
  reserve = none;
  increment = 10000;
  state = DemoState.scheduled;
  start_offset = Offset.ahead 2880;
  end_offset = Offset.ahead 5760;
  bid_count = 0;
  extension_minutes = 0;
  description = "Set of five traditional baskets woven by a women's cooperative in Kakoba.";
}

abbrev samsung_inch_smart : DemoAuction
samsung_inch_smart = record {
  title = "Samsung 55-inch Smart TV";
  category = "Electronics";
  seller = "seller_nyamitanga";
  location = "Mbarara City";
  start_price = 1100000;
  reserve = none;
  increment = 25000;
  state = DemoState.paused;
  start_offset = Offset.ago 600;
  end_offset = Offset.ahead 600;
  bid_count = 3;
  extension_minutes = 0;
  description = "Samsung 55-inch 4K Smart TV, boxed, one year old.";
}

abbrev pyrethrum_sprayers_litre : DemoAuction
pyrethrum_sprayers_litre = record {
  title = "Pyrethrum sprayers, 20 litre (set of 10)";
  category = "Farm Equipment";
  seller = "seller_rwampara";
  location = "Isingiro Road";
  start_price = 650000;
  reserve = some 700000;
  increment = 20000;
  state = DemoState.closed;
  start_offset = Offset.ago 4800;
  end_offset = Offset.ago 120;
  bid_count = 4;
  extension_minutes = 0;
  description = "Ten knapsack sprayers, 20 litres each, new in carton.";
}

abbrev mountain_bike_speed : DemoAuction
mountain_bike_speed = record {
  title = "Mountain bike, 21-speed";
  category = "Vehicles";
  seller = "seller_kakoba";
  location = "Kakoba";
  start_price = 450000;
  reserve = some 800000;
  increment = 20000;
  state = DemoState.closed;
  start_offset = Offset.ago 5400;
  end_offset = Offset.ago 300;
  bid_count = 3;
  extension_minutes = 0;
  description = "21-speed mountain bike, recently serviced. Closed without meeting the reserve.";
}

abbrev solar_water_heater : DemoAuction
solar_water_heater = record {
  title = "Solar water heater, 200 litre";
  category = "Electronics";
  seller = "seller_ruharo";
  location = "Ruharo";
  start_price = 1200000;
  reserve = none;
  increment = 25000;
  state = DemoState.submitted;
  start_offset = Offset.ahead 1440;
  end_offset = Offset.ahead 5760;
  bid_count = 0;
  extension_minutes = 0;
  description = "Roof-mounted 200-litre solar water heater, includes pipes and fittings.";
}

abbrev goat_herd_does : DemoAuction
goat_herd_does = record {
  title = "Goat herd, 12 does";
  category = "Livestock";
  seller = "seller_rwampara";
  location = "Rwampara";
  start_price = 3000000;
  reserve = some 3500000;
  increment = 100000;
  state = DemoState.submitted;
  start_offset = Offset.ahead 1440;
  end_offset = Offset.ahead 7200;
  bid_count = 0;
  extension_minutes = 0;
  description = "Twelve Boer-cross does, healthy and vaccinated.";
}

abbrev antique_wooden_stool : DemoAuction
antique_wooden_stool = record {
  title = "Antique wooden stool set";
  category = "Furniture";
  seller = "seller_nyamitanga";
  location = "Nyamitanga";
  start_price = 300000;
  reserve = none;
  increment = 10000;
  state = DemoState.draft;
  start_offset = Offset.ahead 1440;
  end_offset = Offset.ahead 5760;
  bid_count = 0;
  extension_minutes = 0;
  description = "Draft listing: the seller has not submitted this one yet.";
}

abbrev pub demo_auctions : List DemoAuction
demo_auctions =
    ankole_long_horn ∷ grade_a_arabica ∷ friesian_dairy_cow ∷ bajaj_boxer_boda
    ∷ dell_latitude_laptop ∷ mahogany_dining_set ∷ walking_tractor_with ∷ quarter_acre_plot
    ∷ toyota_premio ∷ three_bedroom_house ∷ matooke_truck_load ∷ hand_woven_banyankole
    ∷ samsung_inch_smart ∷ pyrethrum_sprayers_litre ∷ mountain_bike_speed ∷ solar_water_heater
    ∷ goat_herd_does ∷ antique_wooden_stool ∷ []
